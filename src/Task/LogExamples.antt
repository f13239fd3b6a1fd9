-- ===== src/Task/LogExamples.antt =====
-- The log of a concrete task: written, read, and read in vain.
use realtime_tests.Prelude.{
  ℕ, ◌+◌, ◌≡◌, refl, Bool, true, false, none, List, [], ◌∷◌, ◌++◌, All, arith,
}
use realtime_tests.Prelude.Int.{negsuc}
use realtime_tests.Time.{Timespec, timespec}
use realtime_tests.Job.{JobStatistics}
use realtime_tests.Job.History.{readings}
use realtime_tests.Task.{TaskParams, encode_task_statistics}
use realtime_tests.Task.Create.{Task, new_task}
use realtime_tests.Task.Flush.{encode_ringbuf, encode_jobs}
use realtime_tests.Task.Header.{read_back}
use realtime_tests.Task.Reading.{TaskInfo, returned, stuck, read_jobs, task_statistics_read}
use realtime_tests.Task.RoundTrip.{JobFits, present, with_counters, task_statistics_read-encode}
use realtime_tests.Task.Flaws.{read_jobs-IsBreaking, task_statistics_read-disabled}
use realtime_tests.Task.EndToEnd.{Logs, in_stream, task_Logs}
use realtime_tests.Task.Examples.{params}

-- The callbacks count their calls, and never stop.
abbrev on_task : TaskInfo → ℕ → Bool × ℕ
on_task tau st = (false, st + 1)

abbrev on_stats : JobStatistics → ℕ → Bool × ℕ
on_stats j st = (false, st + 1)

abbrev has_memory : ℕ → Bool
has_memory size = true

abbrev one_job : JobStatistics
one_job = record { t_begin = timespec 5 900000000; t_end = timespec 6 1 }

abbrev ended : Task
ended = record (new_task params none) { oldest_job_pos = 1; lost_job_count = 0; write_count = 1 }

abbrev logged : List ℕ
logged = encode_task_statistics params ++ (encode_ringbuf ended ++ encode_jobs (one_job ∷ []))

task_statistics_read-encode_example :
    task_statistics_read has_memory [] on_task on_stats 2 (in_stream logged) 0
    ≡ present has_memory [] on_task on_stats
        (with_counters ended (record ((read_back params).info) { name = params.name }))
        (one_job ∷ [])
        0
task_statistics_read-encode_example =
    task_statistics_read-encode has_memory [] on_task on_stats 2 params ended (one_job ∷ [])
      (in_stream logged) 0 (record { whole = refl; more = refl; good = refl }) (omega arith)
      (omega arith) refl (omega arith, omega arith, omega arith)
      (((omega arith, omega arith), (omega arith, omega arith)), tt) refl (omega arith)

-- Three bytes, and then the device fails.
read_jobs-IsBreaking_example :
    read_jobs has_memory [] on_task on_stats 100
      (record (in_stream (1 ∷ 2 ∷ 3 ∷ [])) { broken = true })
      0
    ≡ stuck
read_jobs-IsBreaking_example =
    read_jobs-IsBreaking has_memory [] on_task on_stats 100
      (record (in_stream (1 ∷ 2 ∷ 3 ∷ [])) { broken = true }) 0
      (record { broken = refl; more = refl; short = omega arith }) (λ j st. refl)

abbrev unlogged : TaskParams
unlogged = record params { ringbuffer_size = 0 }

task_statistics_read-disabled_example :
    task_statistics_read has_memory [] on_task on_stats 2
      (in_stream (encode_task_statistics unlogged))
      0
    ≡ returned (negsuc 2) 1
task_statistics_read-disabled_example =
    task_statistics_read-disabled has_memory [] on_task on_stats 2 unlogged
      (in_stream (encode_task_statistics unlogged)) 0
      (record { whole = refl; more = refl; good = refl }) refl (omega arith) refl refl

-- The world is a counter of nanoseconds.
abbrev now : ℕ → Timespec
now w = timespec 0 w

abbrev tick : ℕ → ℕ
tick w = w + 1

abbrev work : ℕ → ℕ
work w = w + 10

fits : All JobFits (readings now tick work 3 100)
unfolding readings
fits = (
  ((omega arith, omega arith), (omega arith, omega arith)),
  (
    ((omega arith, omega arith), (omega arith, omega arith)),
    (((omega arith, omega arith), (omega arith, omega arith)), tt),
  ),
)

-- Three jobs and two slots.
task_Logs_example : Logs now tick work on_task on_stats [] params 3 100 0
task_Logs_example =
    task_Logs now tick work on_task on_stats [] params 3 100 0
      (record { some_slot = omega arith; fits = omega arith; overruns = refl; short = omega arith })
      (omega arith) fits
