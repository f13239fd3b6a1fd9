-- ===== src/Job/Overhead.antt =====
-- job.c: `job_statistics_overhead`, which times the code that frames an empty job.
use realtime_tests.Prelude.{
  zero, suc, ◌-◌, ◌≡◌, refl, Bool, true, false, not, Option, none, some, ◌==◌, if◌then◌else◌,
}
use realtime_tests.Prelude.Int.{ℤ, pos, negsuc, ◌-ℤ◌}
use realtime_tests.Time.{Timespec, UtilityTime, zeroed, IsNormal, to_ns, minus}
use realtime_tests.Time.Exact.{minus_exact}
use realtime_tests.Job.{JobStatistics, JobstatsRingbuf, job_start}
use realtime_tests.Job.Logged.{log_one}
use realtime_tests.Job.Started.{job_start-log_one}
use realtime_tests.Job.History.{working}

abbrev variable : Timespec → UtilityTime
variable t = record zeroed { t = t }

abbrev pub is_zero : ℤ → Bool
is_zero (pos n) = n == 0
is_zero (negsuc n) = false

-- The exit status of the thread, and the overhead.
abbrev Measured : Type 0
Measured = ℤ × Option Timespec

abbrev pub failed : ℤ → Measured
failed rc = (rc, none)

-- What `rc -= clock_gettime (CLOCK_TYPE, …)` leaves in `rc`.
abbrev pub read_rc : ℤ → Option Timespec → ℤ
read_rc rc none = rc -ℤ negsuc 0
read_rc rc (some t) = rc -ℤ pos 0

-- The part of the thread behind `overhead_measurement`; it does not look at the times of a failure.
abbrev pub difference : ℤ → Option Timespec → Option Timespec → Measured
difference rc (some t_begin) (some t_end) =
    if not (is_zero rc)
    then failed (negsuc 1)
    else (pos 0, some (minus (variable t_end) (variable t_begin)))
difference rc none t_end = failed (negsuc 1)
difference rc (some t_begin) none = failed (negsuc 1)

module _ {S : Type 0} (clock : S → Option Timespec × S) where
  -- The empty program does nothing to the world.
  unfoldable pub overhead_measurement : S → ℤ × Option Timespec × Option Timespec × S
  overhead_measurement w =
      let (t_begin, w1) = clock w in
      let (t_end, w2) = clock w1 in (read_rc (read_rc (pos 0) t_begin) t_end, t_begin, t_end, w2)

  -- `locked` and `entered` are what `lock_me_to_cpu` and `sched_fifo_enter_max` return.
  unfoldable pub overhead_measurement_thread : (locked entered : ℤ) → S → Measured
  unfolding overhead_measurement
  overhead_measurement_thread locked (pos zero) w =
      let (rc, t_begin, t_end, w') = overhead_measurement w in
      if not (is_zero locked) then failed (negsuc 1) else difference rc t_begin t_end
  overhead_measurement_thread locked (pos (suc n)) w = failed (negsuc 1)
  overhead_measurement_thread locked (negsuc zero) w =
      if not (is_zero locked) then failed (negsuc 1) else failed (negsuc 0)
  overhead_measurement_thread locked (negsuc (suc n)) w = failed (negsuc 1)

  unfoldable pub job_statistics_overhead :
      (creates joins : Bool) → (locked entered : ℤ) → S → Measured
  job_statistics_overhead creates joins locked entered w =
      let thread = overhead_measurement_thread locked entered w in
      if not creates
      then failed (negsuc 1)
      else if not joins
      then failed (negsuc 1)
      else if is_zero thread.0
      then thread
      else failed thread.0

-- With a clock that never fails, what `job_statistics_overhead` returns is the time between the two
-- readings that `job_start` would log, at the same place of the world, for a job that does nothing,
-- in nanoseconds, if both are proper times.
pub job_statistics_overhead-job_start :
    {S : Type 0} (time : S → Timespec) (tick : S → S) (r : JobstatsRingbuf) (w : S)
    → IsNormal (time w)
    → IsNormal (time (tick w))
    → (s : JobStatistics) × (d : Timespec) × (job_start
          (working time tick (λ u. u))
          (λ u. u)
          (some r)
          w
        ≡ (pos 0, some (log_one r s), tick (tick w)))
      × (job_statistics_overhead (working time tick (λ u. u)) true true (pos 0) (pos 0) w
          ≡ (pos 0, some d))
      × (to_ns d ≡ to_ns s.t_end - to_ns s.t_begin)
unfolding job_statistics_overhead overhead_measurement_thread overhead_measurement ◌-ℤ◌
job_statistics_overhead-job_start time tick r w nb ne = (
  record { t_begin = time w; t_end = time (tick w) },
  _,
  job_start-log_one (working time tick (λ u. u)) (λ u. u) r w (time w) (time (tick w)) refl refl,
  refl,
  (minus_exact (variable (time (tick w))) (variable (time w)) ne nb).0,
)
