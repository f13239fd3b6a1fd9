-- ===== src/Experiment/RateMonotonic.antt =====
-- rate_monotonic/main.c, part by part.
use realtime_tests.Prelude.{ℕ, Bool, List, [], ◌∷◌, ◌++◌}
use realtime_tests.Experiment.{
  Resource, Call, Event, Step, Exit, fatally, or_error, checked, main, each, check_wcet,
  create_busyloop, first_busyloop, last_busyloop, read_clock, acquired, released, goes_to_error,
  set_prio, create_task_thread, join_thread, check_rc, determine_overheads, overheads, stopped,
}

abbrev four : List ℕ
four = 1 ∷ 2 ∷ 3 ∷ 4 ∷ []

abbrev pub lock_memory : Step
lock_memory = fatally Call.memory_lock []

unfoldable pub prepare : List Step
unfolding each
prepare =
    determine_overheads
    ++ (each check_wcet four
        ++ (first_busyloop 1
            ∷ create_busyloop 2
            ∷ create_busyloop 3
            ∷ last_busyloop 4
            ∷ read_clock
            ∷ []))

-- The period is collected manually around the creation of the task.
abbrev pub create_task_with_period : ℕ → Step
create_task_with_period id = record {
  before = acquired (Resource.period id) ∷ [];
  call = Call.task_create id;
  failure = goes_to_error;
  effects = acquired (Resource.tau id) ∷ released (Resource.period id) ∷ [];
}

unfoldable pub create_tasks : List Step
unfolding each
create_tasks = each create_task_with_period four

unfoldable pub start_threads : List Step
unfolding each
start_threads =
    checked Call.sched_fifo_enter_max ∷ (each set_prio four ++ each create_task_thread four)

unfoldable pub stop_threads : List Step
unfolding each
stop_threads =
    or_error Call.clock_nanosleep (stopped 1 ∷ stopped 2 ∷ stopped 3 ∷ stopped 4 ∷ [])
    ∷ (each join_thread four ++ each check_rc four)

abbrev pub steps : List Step
steps = lock_memory ∷ (prepare ++ (create_tasks ++ (start_threads ++ stop_threads)))

abbrev pub variables : List Resource
variables =
    Resource.tau 4
    ∷ Resource.tau 3
    ∷ Resource.tau 2
    ∷ Resource.tau 1
    ∷ Resource.busyloop 4
    ∷ Resource.busyloop 3
    ∷ Resource.busyloop 2
    ∷ Resource.busyloop 1
    ∷ overheads

unfoldable pub experiment : (Call → Bool) → Exit × List Event
experiment = main steps variables
