-- ===== src/Task/Reading.antt =====
-- task.c: `task_statistics_read`.
use realtime_tests.Prelude.{
  ℕ, zero, suc, ◌+◌, ◌-◌, ◌%◌, ◌^◌, leb, Bool, not, ◌&&◌, Option, none, some, List, [], ◌∷◌, ◌==◌,
  if◌then◌else◌, length, take, drop,
}
use realtime_tests.Prelude.Int.{ℤ, pos, negsuc}
use realtime_tests.Prelude.Bytes.{decode}
use realtime_tests.Time.{Timespec, timespec}
use realtime_tests.Job.{JobStatistics}
use realtime_tests.File.{InStream, fread}
use realtime_tests.Stats.{job_statistics_read}
use realtime_tests.Task.{
  host_byte_order, sizeof_tv_sec, sizeof_tv_nsec, sizeof_unsigned_long, sizeof_task_statistics,
}

-- The task that the first callback is shown.
pub record TaskInfo : Type 0 where
  pub name : List ℕ
  pub wcet : Timespec
  pub period : Timespec
  pub deadline : Timespec
  pub t_0 : Timespec
  pub offset : Timespec
  pub job_statistics_overhead : Timespec
  pub finish_to_start_overhead : Timespec
  pub aperiodic : ℕ
  pub disable_job_statistics : ℕ
  pub oldest_job_pos : ℕ
  pub lost_job_count : ℕ
  pub write_count : ℕ

-- The members of `task_statistics`, with the name and the ring buffer's numbers still to come.
pub record Fixed : Type 0 where
  pub byte_order : ℕ
  pub tv_sec : ℕ
  pub tv_nsec : ℕ
  pub unsigned_long : ℕ
  pub info : TaskInfo
  pub name_len : ℕ

unfoldable pub decode_time32 : List ℕ → Timespec × List ℕ
unfolding decode
decode_time32 bs = (timespec (decode (take 4 bs)) (decode (take 4 (drop 4 bs))), drop 8 bs)

unfoldable pub decode_times : (a b c d e f : ℕ) → List ℕ → Fixed
decode_times a b c d e f bs =
    let (wcet, bs) = decode_time32 bs in
    let (period, bs) = decode_time32 bs in
    let (deadline, bs) = decode_time32 bs in
    let (t_0, bs) = decode_time32 bs in
    let (offset, bs) = decode_time32 bs in
    let (job_statistics_overhead, bs) = decode_time32 bs in
    let (finish_to_start_overhead, bs) = decode_time32 bs in
    record {
      byte_order = a;
      tv_sec = b;
      tv_nsec = c;
      unsigned_long = d;
      info = record {
        name = [];
        wcet = wcet;
        period = period;
        deadline = deadline;
        t_0 = t_0;
        offset = offset;
        job_statistics_overhead = job_statistics_overhead;
        finish_to_start_overhead = finish_to_start_overhead;
        aperiodic = e;
        disable_job_statistics = f;
        oldest_job_pos = 2 ^ 64 - 1;
        lost_job_count = 2 ^ 64 - 1;
        write_count = 2 ^ 64 - 1;
      };
      name_len = decode (take 4 bs);
    }

-- The bytes of a `task_statistics`; `none` for fewer than its first six.
unfoldable pub decode_fixed : List ℕ → Option Fixed
unfolding decode_times
decode_fixed (a ∷ b ∷ c ∷ d ∷ e ∷ f ∷ bs) = some (decode_times a b c d e f bs)
decode_fixed bs = none

unfoldable pub decode_ringbuf : TaskInfo → List ℕ → TaskInfo
unfolding decode
decode_ringbuf tau bs = record tau {
  oldest_job_pos = decode (take 8 bs);
  lost_job_count = decode (take 8 (drop 8 bs));
  write_count = decode (take 8 (drop 16 bs));
}

unfoldable pub is_compatible : Fixed → Bool
unfolding host_byte_order
is_compatible h =
    h.byte_order == host_byte_order
    && h.tv_sec == sizeof_tv_sec
    && h.tv_nsec == sizeof_tv_nsec
    && h.unsigned_long == sizeof_unsigned_long

-- `malloc`, what is found in the local buffer of `job_statistics_read`, and the two callbacks over
-- the state behind their arguments: whether they returned non-zero.
module _ {S : Type 0} (has_memory : ℕ → Bool) (found : List ℕ) (task_fn : TaskInfo → S → Bool × S)
    (job_fn : JobStatistics → S → Bool × S) where
  -- What the function returns and leaves, or a write behind the memory for the name; `stuck` is a
  -- run out of fuel.
  pub data Result : Type 0 where
    returned : ℤ → S → Result
    out_of_bounds : Result
    stuck : Result

  -- One answer of `job_statistics_read`.
  abbrev pub on_job : (InStream → S → Result) → S → ℤ × Option JobStatistics × InStream → Result
  on_job next st (pos n, some j, s) =
      let (stop, st') = job_fn j st in
      let more = next s st' in if stop then returned (negsuc 1) st' else more
  on_job next st (pos n, none, s) = stuck
  on_job next st (negsuc zero, j, s) = returned (pos 0) st
  on_job next st (negsuc (suc n), j, s) = returned (negsuc 2) st

  -- The loop over the jobs.
  unfoldable pub read_jobs : ℕ → InStream → S → Result
  read_jobs zero s st = stuck
  read_jobs (suc fuel) s st = on_job (read_jobs fuel) st (job_statistics_read found s)

  -- From the first callback on. Without job statistics the code falls through to its last lines
  -- with the exit code that it began with.
  unfoldable pub show_task : ℕ → TaskInfo → InStream → S → Result
  show_task fuel tau s st =
      let (stop, st') = task_fn tau st in
      let jobs = read_jobs fuel s st' in
      if stop
      then returned (negsuc 0) st'
      else if not (tau.disable_job_statistics == 0)
      then returned (negsuc 2) st'
      else jobs

  -- The numbers of the ring buffer, unless job statistics are disabled.
  unfoldable pub read_ringbuf : ℕ → TaskInfo → InStream → S → Result
  read_ringbuf fuel tau s st =
      let (bytes, s') = fread 24 s in
      let enabled = show_task fuel (decode_ringbuf tau bytes) s' st in
      let disabled = show_task fuel tau s st in
      if not (tau.disable_job_statistics == 0)
      then disabled
      else if not (length bytes == 24)
      then returned (negsuc 2) st
      else enabled

  -- The size of the memory for the name is computed in 32 bits.
  unfoldable pub read_name : ℕ → Fixed → InStream → S → Result
  read_name fuel h s st =
      let (name, s') = fread h.name_len s in
      let next = read_ringbuf fuel (record (h.info) { name = name }) s' st in
      let size = (h.name_len + 1) % 2 ^ 32 in
      if not (has_memory size)
      then returned (negsuc 2) st
      else if leb (size + 1) (length name)
      then out_of_bounds
      else if not (length name == h.name_len)
      then returned (negsuc 2) st
      else next

  abbrev pub check_host : ℕ → Option Fixed → InStream → S → Result
  check_host fuel none s st = returned (negsuc 2) st
  check_host fuel (some h) s st =
      let next = read_name fuel h s st in if is_compatible h then next else returned (negsuc 2) st

  unfoldable pub task_statistics_read : ℕ → InStream → S → Result
  task_statistics_read fuel s st =
      let (bytes, s') = fread sizeof_task_statistics s in
      let next = check_host fuel (decode_fixed bytes) s' st in
      if s.eof
      then returned (negsuc 3) st
      else if not (length bytes == sizeof_task_statistics)
      then if s'.error
        then returned (negsuc 2) st
        else if length bytes == 0 && s'.eof
        then returned (negsuc 3) st
        else returned (negsuc 2) st
      else next
