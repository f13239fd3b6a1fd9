-- ===== src/Experiment/Examples.antt =====
-- The experiments where the second thread cannot be created.
use realtime_tests.Prelude.{◌≡◌, Bool, true, not, ◌==◌, [], arith}
use realtime_tests.Time.{timespec}
use realtime_tests.Experiment.{Call, Ending, run, each}
use realtime_tests.Experiment.EarliestDeadlineFirst
use realtime_tests.Experiment.RateMonotonic
use realtime_tests.Experiment.PriorityInversion
use realtime_tests.Experiment.Multicore
use realtime_tests.Experiment.Multicore.{is_parallel}
use realtime_tests.Experiment.Parallel.{is_parallel_exact}
use realtime_tests.Experiment.Releases.{
  is_clean, uses_own, uses_shared, frees_used, experiments_release, experiments_late,
}

abbrev one_thread : Call → Bool
one_thread (Call.pthread_create n) = not (n == 2)
one_thread _ = true

experiments_late_example :
    (frees_used uses_own [] (EarliestDeadlineFirst.experiment one_thread).1 ≡ true)
    × (frees_used uses_own [] (RateMonotonic.experiment one_thread).1 ≡ true)
    × (frees_used uses_shared [] (PriorityInversion.experiment one_thread).1 ≡ true)
unfolding run each EarliestDeadlineFirst.prepare EarliestDeadlineFirst.create_tasks
    EarliestDeadlineFirst.start_threads EarliestDeadlineFirst.stop_threads RateMonotonic.prepare
    RateMonotonic.create_tasks RateMonotonic.start_threads RateMonotonic.stop_threads
    PriorityInversion.prepare PriorityInversion.create_tasks PriorityInversion.start_threads
    PriorityInversion.stop_threads
experiments_late_example = experiments_late one_thread

-- All calls succeed, or the first processor's thread cannot be locked to it.
abbrev no_lock : Call → Bool
no_lock (Call.arrives n) = not (n == 0)
no_lock _ = true

experiments_release_example :
    (is_clean Ending.succeeds (EarliestDeadlineFirst.experiment no_lock) ≡ true)
    × (is_clean Ending.succeeds (RateMonotonic.experiment no_lock) ≡ true)
    × (is_clean Ending.succeeds (PriorityInversion.experiment no_lock) ≡ true)
    × (is_clean (Ending.hangs (Call.arrives 0)) (Multicore.experiment no_lock) ≡ true)
unfolding run each EarliestDeadlineFirst.prepare EarliestDeadlineFirst.create_tasks
    EarliestDeadlineFirst.start_threads EarliestDeadlineFirst.stop_threads RateMonotonic.prepare
    RateMonotonic.create_tasks RateMonotonic.start_threads RateMonotonic.stop_threads
    PriorityInversion.prepare PriorityInversion.create_tasks PriorityInversion.start_threads
    PriorityInversion.stop_threads Multicore.prepare Multicore.run_threads
experiments_release_example = experiments_release no_lock

is_parallel_exact_example :
    is_parallel
      (timespec 5 0)
      (timespec 6 500000000)
      (timespec 5 400)
      (timespec 6 499500000)
      (timespec 0 1000000)
    ≡ true
is_parallel_exact_example =
    is_parallel_exact (timespec 5 0) (timespec 6 500000000) (timespec 5 400) (timespec 6 499500000)
      (timespec 0 1000000) (ground arith) (ground arith) (ground arith) (ground arith)
      (ground arith)
