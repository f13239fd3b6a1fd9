-- ===== src/Task/PeriodicExamples.antt =====
-- A concrete periodic task that is stopped during its third job.
use realtime_tests.Prelude.{
  ℕ, zero, suc, ◌+◌, ◌<◌, ◌≤◌, ◌≡◌, refl, Bool, true, false, some, List, [], ◌∷◌, leb, length,
  arith, add_long, div_long, mod_long,
}
use realtime_tests.Prelude.Int.{pos}
use realtime_tests.Time.{Timespec, timespec, to_ns, plus, combined_ns_in_s, combined_ns_leftover}
use realtime_tests.Job.{JobstatsRingbuf}
use realtime_tests.Job.Logged.{log_all}
use realtime_tests.Job.History.{working}
use realtime_tests.Task.Create.{new_task}
use realtime_tests.Task.Release.{ended, task_start_periodic}
use realtime_tests.Task.Periodic.{
  ReleasesAt, sound_sleep, world_after, job_times, task_start_periodic_lem,
}
use realtime_tests.Task.Examples.{params}

-- The world is the time in nanoseconds; a call of the clock takes one, a job takes ten.
abbrev wake : Timespec → ℕ → ℕ
wake t w = to_ns t

abbrev time : ℕ → Timespec
time w = timespec 0 w

abbrev tick : ℕ → ℕ
tick w = w + 1

abbrev work : ℕ → ℕ
work w = w + 10

abbrev is_stopped : ℕ → Bool
is_stopped w = leb 102000000000 w

abbrev two_slots : JobstatsRingbuf
two_slots = record {
  ringbuf =
      record { t_begin = timespec 0 0; t_end = timespec 0 0 }
      ∷ record { t_begin = timespec 0 0; t_end = timespec 0 0 }
      ∷ [];
  slot_count = 2;
  next = 0;
  overrun_count = 0;
  overrun_disabled = false;
  overrun = false;
  write_count = 0;
}

abbrev first : Timespec
first = timespec 100 500

going :
    (k : ℕ)
    → k < 2
    → is_stopped (world_after wake time tick work is_stopped (suc k) first params.period 0) ≡ false
unfolding world_after plus combined_ns_in_s combined_ns_leftover add_long div_long mod_long
going zero lt = refl
going (suc zero) lt = refl
going (suc (suc k)) lt = absurd (omega arith)

stop : is_stopped (world_after wake time tick work is_stopped 3 first params.period 0) ≡ true
unfolding world_after plus combined_ns_in_s combined_ns_leftover add_long div_long mod_long
stop = refl

task_start_periodic_lem_example :
    (ts : List Timespec) × (task_start_periodic
        (sound_sleep wake time tick work is_stopped)
        (working time tick work)
        work
        is_stopped
        10
        params.period
        first
        (some two_slots)
        (pos 0)
        0
      ≡ ended
          (pos 0)
          (some
            (log_all two_slots (job_times wake time tick work is_stopped 3 first params.period 0)))
          (world_after wake time tick work is_stopped 3 first params.period 0)
          ts)
    × (length ts ≡ 3)
    × ((k : ℕ) → k ≤ 2 → ReleasesAt params k ts)
unfolding new_task plus combined_ns_in_s combined_ns_leftover add_long div_long mod_long
task_start_periodic_lem_example =
    task_start_periodic_lem wake time tick work is_stopped 10 2 params two_slots 0
      (record { sec = omega arith; nsec = omega arith })
      (record { sec = omega arith; nsec = omega arith })
      (record { sec = omega arith; nsec = omega arith }) (omega arith) going stop (omega arith)
