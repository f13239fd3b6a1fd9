-- ===== src/Job.antt =====
-- job.h and job.c: job statistics, the ring buffer that logs them, and the start of one job.
pub mod Saving
pub mod Saved
pub mod Counts
pub mod Logged
pub mod Enabled
pub mod Disabled
pub mod Started
pub mod History
pub mod Overhead
mod Examples
mod OverheadExamples
use realtime_tests.Prelude.{
  ℕ, zero, suc, ◌+◌, ◌*◌, ◌/◌, ◌%◌, ◌^◌, Bool, true, false, not, ◌&&◌, ◌||◌, Option, none, some,
  List, [], ◌∷◌, ◌==◌, if◌then◌else◌, replicate, add_long, sub_long, long_mod,
}
use realtime_tests.Prelude.Int.{ℤ, pos, negsuc, ◌-ℤ◌}
use realtime_tests.Time.{Timespec, timespec}

-- `job_statistics`
pub record JobStatistics : Type 0 where
  pub t_begin : Timespec
  pub t_end : Timespec

abbrev pub no_statistics : JobStatistics
no_statistics = record { t_begin = timespec 0 0; t_end = timespec 0 0 }

abbrev pub sizeof_job_statistics : ℕ
sizeof_job_statistics = 32

-- `jobstats_ringbuf`
pub record JobstatsRingbuf : Type 0 where
  pub ringbuf : List JobStatistics
  pub slot_count : ℕ
  pub next : ℕ
  pub overrun_count : ℕ
  pub overrun_disabled : Bool
  pub overrun : Bool
  pub write_count : ℕ

-- `has_memory` tells of the two calls of `malloc` whether they succeed. The size of the array is
-- computed in `size_t`.
unfoldable pub jobstats_ringbuf_create : (Bool × Bool) → ℕ → Bool → Option JobstatsRingbuf
jobstats_ringbuf_create has_memory slot_count disable_overrun =
    let size = sizeof_job_statistics * slot_count % long_mod in
    if slot_count == 0
    then none
    else if not (has_memory.0)
    then none
    else if not (has_memory.1)
    then none
    else some (record {
      ringbuf = replicate (size / sizeof_job_statistics) no_statistics;
      slot_count = slot_count;
      next = 0;
      overrun_count = 0;
      overrun_disabled = disable_overrun;
      overrun = false;
      write_count = 0;
    })

-- The first part of `job_start`: where the statistics go, `none` for the dummy, and the counters.
unfoldable pub claim_slot : JobstatsRingbuf → Option ℕ × JobstatsRingbuf
claim_slot r =
    if r.next == r.slot_count
    then if not r.overrun_disabled
      then (
        some 0,
        record r {
          next = 1;
          overrun_count = add_long r.overrun_count 1;
          overrun = true;
          write_count = add_long r.write_count 1;
        },
      )
      else (none, record r { overrun = true; write_count = add_long r.write_count 1 })
    else (
      some r.next,
      record r { next = add_long r.next 1; write_count = add_long r.write_count 1 },
    )

-- A write through a pointer into the array.
abbrev pub modify : List JobStatistics → ℕ → (JobStatistics → JobStatistics) → List JobStatistics
modify [] i f = []
modify (x ∷ xs) zero f = f x ∷ xs
modify (x ∷ xs) (suc i) f = x ∷ modify xs i f

unfoldable pub write_slot :
    Option ℕ → (JobStatistics → JobStatistics) → JobstatsRingbuf → JobstatsRingbuf
write_slot none f r = r
write_slot (some i) f r = record r { ringbuf = modify r.ringbuf i f }

-- `clock_gettime` over the state of the world, `none` for a failure, which stores nothing; and
-- the program of the job.
module _ {S : Type 0} (clock : S → Option Timespec × S) (run_program : S → S) where
  -- `rc -= clock_gettime (CLOCK_TYPE, &stats->…)`
  unfoldable pub stamp :
      Option ℕ
      → (Timespec → JobStatistics → JobStatistics)
      → ℤ
      → JobstatsRingbuf
      → S
      → ℤ × JobstatsRingbuf × S
  unfolding write_slot
  stamp slot field rc r w = elim (clock w).0 [
    | none ↦ (rc -ℤ negsuc 0, r, (clock w).1)
    | some t ↦ (rc -ℤ pos 0, write_slot slot (field t) r, (clock w).1)
  ]

  unfoldable pub job_start : Option JobstatsRingbuf → S → ℤ × Option JobstatsRingbuf × S
  unfolding claim_slot stamp
  job_start none w = (pos 0, none, run_program w)
  job_start (some r) w =
      let (slot, r1) = claim_slot r in
      let (rc1, r2, w1) = stamp slot (λ t s. record s { t_begin = t }) (pos 0) r1 w in
      let (rc2, r3, w2) = stamp slot (λ t s. record s { t_end = t }) rc1 r2 (run_program w1) in
      (rc2, some r3, w2)

-- A binary output stream, with the number of items that it can still take: `fwrite` of one more
-- fails.
pub record OutStream (A : Type 0) : Type 0 where
  pub written : List A
  pub room : ℕ

unfoldable pub jobstats_ringbuf_overrun : JobstatsRingbuf → Bool
jobstats_ringbuf_overrun r = if r.overrun_disabled then r.overrun else not (r.overrun_count == 0)

unfoldable pub jobstats_ringbuf_oldest_pos : JobstatsRingbuf → ℕ
unfolding jobstats_ringbuf_overrun
jobstats_ringbuf_oldest_pos r =
    if r.write_count == 0
    then 0
    else if r.overrun_disabled || not (jobstats_ringbuf_overrun r)
    then 1
    else add_long (sub_long r.write_count r.slot_count) 1

unfoldable pub jobstats_ringbuf_lost_count : JobstatsRingbuf → ℕ
unfolding jobstats_ringbuf_overrun jobstats_ringbuf_oldest_pos
jobstats_ringbuf_lost_count r =
    if not (jobstats_ringbuf_overrun r)
    then 0
    else if r.overrun_disabled
    then sub_long r.write_count r.slot_count
    else sub_long (jobstats_ringbuf_oldest_pos r) 1
