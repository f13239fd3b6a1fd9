-- ===== src/Task/Header.antt =====
-- task.c: the parameters that `task_create` writes, decoded again.
use realtime_tests.Prelude.{◌-◌, ◌%◌, ◌^◌, ◌≡◌, refl, some, [], ◌==◌, length}
use realtime_tests.Prelude.Bytes.{encode, decode, decode-encode_mod4}
use realtime_tests.Time.{Timespec, timespec}
use realtime_tests.Task.{
  TaskParams, to_byte, host_byte_order, sizeof_tv_sec, sizeof_tv_nsec, sizeof_unsigned_long,
  sizeof_task_statistics, encode_fixed,
}
use realtime_tests.Task.Reading.{Fixed, decode_time32, decode_times, decode_fixed}

-- What 32 bits keep of a time.
abbrev pub low32 : Timespec → Timespec
low32 t = timespec (t.tv_sec % 2 ^ 32) (t.tv_nsec % 2 ^ 32)

-- Decoding its two encoded numbers gives that.
low32-path :
    (t : Timespec) → timespec (decode (encode 4 t.tv_sec)) (decode (encode 4 t.tv_nsec)) ≡ low32 t
low32-path t = λ i. timespec (decode-encode_mod4 t.tv_sec i) (decode-encode_mod4 t.tv_nsec i)

-- The members that a log of `p` gives back.
abbrev pub read_back : TaskParams → Fixed
read_back p = record {
  byte_order = host_byte_order;
  tv_sec = sizeof_tv_sec;
  tv_nsec = sizeof_tv_nsec;
  unsigned_long = sizeof_unsigned_long;
  info = record {
    name = [];
    wcet = low32 p.wcet;
    period = low32 p.period;
    deadline = low32 p.deadline;
    t_0 = low32 p.t_0;
    offset = low32 p.offset;
    job_statistics_overhead = low32 p.job_statistics_overhead;
    finish_to_start_overhead = low32 p.finish_to_start_overhead;
    aperiodic = to_byte p.aperiodic;
    disable_job_statistics = to_byte (p.ringbuffer_size == 0);
    oldest_job_pos = 2 ^ 64 - 1;
    lost_job_count = 2 ^ 64 - 1;
    write_count = 2 ^ 64 - 1;
  };
  name_len = length p.name % 2 ^ 32;
}

pub length-encode_fixed : (p : TaskParams) → length (encode_fixed p) ≡ sizeof_task_statistics
unfolding encode_fixed
length-encode_fixed p = refl

pub decode-encode_fixed : (p : TaskParams) → decode_fixed (encode_fixed p) ≡ some (read_back p)
unfolding decode_fixed decode_times decode_time32 decode encode_fixed
decode-encode_fixed p = λ i. some (record {
  byte_order = host_byte_order;
  tv_sec = sizeof_tv_sec;
  tv_nsec = sizeof_tv_nsec;
  unsigned_long = sizeof_unsigned_long;
  info = record {
    name = [];
    wcet = low32-path p.wcet i;
    period = low32-path p.period i;
    deadline = low32-path p.deadline i;
    t_0 = low32-path p.t_0 i;
    offset = low32-path p.offset i;
    job_statistics_overhead = low32-path p.job_statistics_overhead i;
    finish_to_start_overhead = low32-path p.finish_to_start_overhead i;
    aperiodic = to_byte p.aperiodic;
    disable_job_statistics = to_byte (p.ringbuffer_size == 0);
    oldest_job_pos = 2 ^ 64 - 1;
    lost_job_count = 2 ^ 64 - 1;
    write_count = 2 ^ 64 - 1;
  };
  name_len = decode-encode_mod4 (length p.name) i;
})
