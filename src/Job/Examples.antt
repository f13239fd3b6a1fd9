-- ===== src/Job/Examples.antt =====
-- Tests of job.c, and its theorems at concrete runs.
use realtime_tests.Prelude.{ℕ, ◌+◌, ◌≡◌, true, false, Option, none, some, [], ◌∷◌, arith}
use realtime_tests.Time.{Timespec, timespec}
use realtime_tests.Job.{JobstatsRingbuf, jobstats_ringbuf_create}
use realtime_tests.Job.History.{run_jobs, readings, overrun_history, no_overrun_history}
use realtime_tests.Job.Counts.{Reports}
use realtime_tests.Job.Disabled.{ReportsFirst}

-- The world is a counter of nanoseconds; a call of the clock takes one, a job takes ten.
abbrev now : ℕ → Timespec
now w = timespec 0 w

abbrev tick : ℕ → ℕ
tick w = w + 1

abbrev work : ℕ → ℕ
work w = w + 10

overrun_history_example :
    (r r' : JobstatsRingbuf) × (jobstats_ringbuf_create (true, true) 2 false ≡ some r)
    × (run_jobs now tick work 5 r 100 ≡ some r')
    × (r'.slot_count ≡ 2)
    × Reports (readings now tick work 5 100) r' [] 8
overrun_history_example =
    overrun_history now tick work 2 (omega arith) (omega arith) 5 100 (omega arith) [] 8
      (omega arith)

no_overrun_history_example :
    (r r' : JobstatsRingbuf) × (jobstats_ringbuf_create (true, true) 2 true ≡ some r)
    × (run_jobs now tick work 5 r 100 ≡ some r')
    × (r'.slot_count ≡ 2)
    × ReportsFirst (readings now tick work 5 100) r' [] 8
no_overrun_history_example =
    no_overrun_history now tick work 2 (omega arith) (omega arith) 5 100 (omega arith) [] 8
      (omega arith)

abbrev broken : ℕ → Option Timespec × ℕ
broken w = (none, w)

abbrev one_slot : JobstatsRingbuf
one_slot = record {
  ringbuf = record { t_begin = timespec 1 0; t_end = timespec 2 0 } ∷ [];
  slot_count = 1;
  next = 1;
  overrun_count = 0;
  overrun_disabled = false;
  overrun = false;
  write_count = 1;
}
