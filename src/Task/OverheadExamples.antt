-- ===== src/Task/OverheadExamples.antt =====
-- A measuring of the overhead of a periodic task at a concrete clock.
use realtime_tests.Prelude.{
  ℕ, ◌+◌, ◌≡◌, true, false, some, [], leb, if◌then◌else◌, arith, add_long, div_long, mod_long,
}
use realtime_tests.Prelude.Int.{pos, negsuc}
use realtime_tests.Time.{
  Timespec, timespec, to_ns, to_utility_time_fields, plus, combined_ns_in_s, combined_ns_leftover,
}
use realtime_tests.Job.History.{working}
use realtime_tests.Task.Overhead.{measured, overhead_measurement_thread, finish_to_start_overhead}
use realtime_tests.Task.Probed.{finish_to_start_overhead_exact}
use realtime_tests.Task.Unset.{is_unset, finish_to_start_overhead_unset}

-- The world is the time in nanoseconds; a sleep never goes back, a call of the clock takes one.
abbrev wake : Timespec → ℕ → ℕ
wake t w = if leb (to_ns t) w then w else to_ns t

abbrev time : ℕ → Timespec
time w = timespec 0 w

abbrev tick : ℕ → ℕ
tick w = w + 1

-- The jobs start when they are released, and one nanosecond behind the end of the first job.
finish_to_start_overhead_exact_example :
    (d : Timespec) × (finish_to_start_overhead true true (
        overhead_measurement_thread
          (λ t w. (0, wake t w))
          (working time tick (λ u. u))
          2
          false
          (pos 0)
          (pos 0)
          true
          (true, true)
          2
          true
          []
          500)
      ≡ measured (pos 0) (some d))
    × (to_ns d ≡ 1)
unfolding plus combined_ns_in_s combined_ns_leftover add_long div_long mod_long
    to_utility_time_fields
finish_to_start_overhead_exact_example =
    finish_to_start_overhead_exact wake time tick 2 2 [] 500 (omega arith) (omega arith)
      (omega arith) (omega arith) (omega arith) (omega arith) (omega arith) (omega arith)
      (omega arith)

-- The thread does not get the scheduler, and cannot be joined.
finish_to_start_overhead_unset_example :
    is_unset (
      finish_to_start_overhead true false (
        overhead_measurement_thread
          (λ t w. (0, wake t w))
          (working time tick (λ u. u))
          2
          false
          (pos 0)
          (negsuc 0)
          true
          (true, true)
          2
          true
          []
          500))
    ≡ true
finish_to_start_overhead_unset_example =
    finish_to_start_overhead_unset (λ t w. (0, wake t w)) (working time tick (λ u. u)) 2 false true
      false (pos 0) (negsuc 0) true (true, true) 2 true [] 500
