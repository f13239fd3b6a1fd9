-- ===== src/Job/OverheadExamples.antt =====
-- The overhead of the statistics of a job at a concrete clock.
use realtime_tests.Prelude.{ℕ, ◌+◌, ◌-◌, ◌≡◌, false, true, some, [], ◌∷◌, arith}
use realtime_tests.Prelude.Int.{pos}
use realtime_tests.Time.{Timespec, timespec, to_ns}
use realtime_tests.Job.{JobStatistics, JobstatsRingbuf, job_start}
use realtime_tests.Job.Logged.{log_one}
use realtime_tests.Job.History.{working}
use realtime_tests.Job.Overhead.{job_statistics_overhead, job_statistics_overhead-job_start}

-- A call of the clock takes 40 nanoseconds.
abbrev time : ℕ → Timespec
time w = timespec 3 w

abbrev tick : ℕ → ℕ
tick w = w + 40

abbrev one_slot : JobstatsRingbuf
one_slot = record {
  ringbuf = record { t_begin = timespec 0 0; t_end = timespec 0 0 } ∷ [];
  slot_count = 1;
  next = 0;
  overrun_count = 0;
  overrun_disabled = false;
  overrun = false;
  write_count = 0;
}

job_statistics_overhead-job_start_example :
    (s : JobStatistics) × (d : Timespec) × (job_start
        (working time tick (λ u. u))
        (λ u. u)
        (some one_slot)
        7
      ≡ (pos 0, some (log_one one_slot s), 87))
    × (job_statistics_overhead (working time tick (λ u. u)) true true (pos 0) (pos 0) 7
        ≡ (pos 0, some d))
    × (to_ns d ≡ to_ns s.t_end - to_ns s.t_begin)
job_statistics_overhead-job_start_example =
    job_statistics_overhead-job_start time tick one_slot 7 (omega arith) (omega arith)
