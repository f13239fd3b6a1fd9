-- ===== src/Task.antt =====
-- task.h and task.c: the parameters of a task, and the creation of its log.
pub mod Create
pub mod Created
pub mod Flush
pub mod Flushed
pub mod Reading
pub mod Header
pub mod RoundTrip
pub mod Flaws
pub mod EndToEnd
pub mod Overhead
pub mod Probed
pub mod Unset
pub mod Stop
pub mod Stopped
pub mod Release
pub mod Periodic
mod Examples
mod LogExamples
mod PeriodicExamples
mod OverheadExamples
mod StopExamples
use realtime_tests.Prelude.{
  ℕ, ◌+◌, ◌%◌, ◌^◌, Bool, true, false, Option, none, some, List, [], ◌∷◌, ◌++◌, ◌==◌, if◌then◌else◌,
  length, take, drop,
}
use realtime_tests.Prelude.Bytes.{encode, decode}
use realtime_tests.Time.{Timespec, timespec}

-- The arguments of `task_create` that the log records. `ringbuffer_size` and
-- `ringbuffer_disable_overrun` go to the ring buffer; a task is aperiodic if it has a release
-- function.
pub record TaskParams : Type 0 where
  pub name : List ℕ
  pub wcet : Timespec
  pub period : Timespec
  pub deadline : Timespec
  pub t_0 : Timespec
  pub offset : Timespec
  pub job_statistics_overhead : Timespec
  pub finish_to_start_overhead : Timespec
  pub aperiodic : Bool
  pub ringbuffer_size : ℕ
  pub ringbuffer_disable_overrun : Bool

abbrev pub to_byte : Bool → ℕ
to_byte b = if b then 1 else 0

-- `host_byte_order`: the first byte of the `int` 0xBEEF in memory decides.
unfoldable pub host_byte_order : ℕ
unfolding encode decode
host_byte_order = if decode (take 1 (encode 4 0xBEEF)) == 0xEF then 0 else 1

abbrev pub sizeof_tv_sec : ℕ
sizeof_tv_sec = 8

abbrev pub sizeof_tv_nsec : ℕ
sizeof_tv_nsec = 8

-- The size of a pointer to `unsigned long`, as the source has it.
abbrev pub sizeof_unsigned_long : ℕ
sizeof_unsigned_long = 8

-- A pair of `uint32_t`: what is above 32 bits is lost.
unfoldable pub encode_time32 : Timespec → List ℕ
unfolding encode
encode_time32 t = encode 4 t.tv_sec ++ encode 4 t.tv_nsec

-- The packed `task_statistics`, before the name.
unfoldable pub encode_fixed : TaskParams → List ℕ
unfolding host_byte_order encode_time32
encode_fixed p =
    host_byte_order
    ∷ sizeof_tv_sec
    ∷ sizeof_tv_nsec
    ∷ sizeof_unsigned_long
    ∷ to_byte p.aperiodic
    ∷ to_byte (p.ringbuffer_size == 0)
    ∷ (encode_time32 p.wcet
        ++ (encode_time32 p.period
            ++ (encode_time32 p.deadline
                ++ (encode_time32 p.t_0
                    ++ (encode_time32 p.offset
                        ++ (encode_time32 p.job_statistics_overhead
                            ++ (encode_time32 p.finish_to_start_overhead
                                ++ encode 4 (length p.name))))))))

abbrev pub sizeof_task_statistics : ℕ
sizeof_task_statistics = 66

-- The `fwrite` of `task_create`: the structure and the name without its NUL.
unfoldable pub encode_task_statistics : TaskParams → List ℕ
unfolding encode_fixed
encode_task_statistics p = encode_fixed p ++ p.name
