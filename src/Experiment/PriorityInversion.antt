-- ===== src/Experiment/PriorityInversion.antt =====
-- priority_inversion_in_RM/main.c, part by part.
use realtime_tests.Prelude.{ℕ, Bool, List, [], ◌∷◌, ◌++◌}
use realtime_tests.Experiment.{
  Resource, Call, Event, Step, Exit, fatally, or_error, checked, main, each, create_busyloop,
  create_task, released, goes_to_error, set_prio, create_task_thread, join_thread, check_rc,
  determine_overheads, overheads, acquired, stopped,
}

abbrev three : List ℕ
three = 1 ∷ 2 ∷ 3 ∷ []

-- The busy loops are named by their milliseconds.
abbrev pub lock_memory : Step
lock_memory = fatally Call.memory_lock []

abbrev pub check_argument : Step
check_argument = fatally Call.has_argument []

-- The attributes of the mutex live around its creation.
abbrev pub create_mutex : Step
create_mutex = record {
  before = acquired Resource.mutex_attributes ∷ [];
  call = Call.setprotocol;
  failure = goes_to_error;
  effects = acquired Resource.mutex ∷ released Resource.mutex_attributes ∷ [];
}

unfoldable pub prepare : List Step
unfolding each
prepare = determine_overheads ++ (each create_busyloop (10 ∷ 30 ∷ 500 ∷ []) ++ (create_mutex ∷ []))

-- The offset is collected manually while the releases are computed.
abbrev pub read_clock : Step
read_clock =
    or_error Call.clock_gettime
      (acquired Resource.offset_to_start ∷ released Resource.offset_to_start ∷ [])

unfoldable pub create_tasks : List Step
unfolding each
create_tasks = each create_task three

unfoldable pub start_threads : List Step
unfolding each
start_threads =
    each set_prio three ++ (checked Call.sched_fifo_enter_max ∷ each create_task_thread three)

unfoldable pub stop_threads : List Step
unfolding each
stop_threads =
    or_error Call.clock_nanosleep (stopped 1 ∷ stopped 2 ∷ stopped 3 ∷ [])
    ∷ (each join_thread three ++ each check_rc three)

abbrev pub steps : List Step
steps =
    lock_memory
    ∷ check_argument
    ∷ (prepare ++ (read_clock ∷ (create_tasks ++ (start_threads ++ stop_threads))))

abbrev pub variables : List Resource
variables =
    Resource.tau 3
    ∷ Resource.tau 2
    ∷ Resource.tau 1
    ∷ Resource.mutex
    ∷ Resource.busyloop 500
    ∷ Resource.busyloop 30
    ∷ Resource.busyloop 10
    ∷ overheads

unfoldable pub experiment : (Call → Bool) → Exit × List Event
experiment = main steps variables
