-- ===== src/Experiment/EarliestDeadlineFirst.antt =====
-- earliest_deadline_first/main.c, part by part.
use realtime_tests.Prelude.{ℕ, Bool, List, [], ◌∷◌, ◌++◌}
use realtime_tests.Experiment.{
  Resource, Call, Event, Step, Exit, fatally, or_error, checked, main, each, check_wcet,
  create_busyloop, create_task, first_busyloop, last_busyloop, read_clock, create_task_thread,
  join_thread, check_rc, determine_overheads, overheads, acquired, started, stopped, joined, wrote,
}

abbrev three : List ℕ
three = 1 ∷ 2 ∷ 3 ∷ []

abbrev pub set_manual_gc : ℕ → Event
set_manual_gc id = acquired (Resource.times id)

abbrev pub lock_memory : Step
lock_memory = fatally Call.memory_lock (set_manual_gc 1 ∷ set_manual_gc 2 ∷ set_manual_gc 3 ∷ [])

unfoldable pub prepare : List Step
unfolding each
prepare =
    determine_overheads
    ++ (each check_wcet three
        ++ (first_busyloop 1 ∷ create_busyloop 2 ∷ last_busyloop 3 ∷ read_clock ∷ []))

unfoldable pub create_tasks : List Step
unfolding each
create_tasks = each create_task three

unfoldable pub start_threads : List Step
start_threads =
    or_error Call.trace_opens (acquired Resource.ktrace_file ∷ [])
    ∷ checked Call.setvbuf
    ∷ create_task_thread 1
    ∷ create_task_thread 2
    ∷ or_error (Call.pthread_create 3) (started 3 ∷ wrote b'1' ∷ [])
    ∷ []

unfoldable pub stop_threads : List Step
unfolding each
stop_threads =
    or_error Call.clock_nanosleep (stopped 1 ∷ stopped 2 ∷ stopped 3 ∷ [])
    ∷ join_thread 1
    ∷ join_thread 2
    ∷ or_error (Call.pthread_join 3) (joined 3 ∷ wrote b'0' ∷ [])
    ∷ each check_rc three

abbrev pub steps : List Step
steps = lock_memory ∷ (prepare ++ (create_tasks ++ (start_threads ++ stop_threads)))

abbrev pub variables : List Resource
variables =
    Resource.ktrace_file
    ∷ Resource.tau 3
    ∷ Resource.tau 2
    ∷ Resource.tau 1
    ∷ Resource.busyloop 3
    ∷ Resource.busyloop 2
    ∷ Resource.busyloop 1
    ∷ (overheads ++ (Resource.times 1 ∷ Resource.times 2 ∷ Resource.times 3 ∷ []))

unfoldable pub experiment : (Call → Bool) → Exit × List Event
experiment = main steps variables
