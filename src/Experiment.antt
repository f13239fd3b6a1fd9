-- ===== src/Experiment.antt =====
-- The experiments: main programs that acquire resources step by step, run tasks in threads, and
-- clean up.
pub mod EarliestDeadlineFirst
pub mod RateMonotonic
pub mod PriorityInversion
pub mod Multicore
pub mod Programs
pub mod Parallel
mod Examples
mod ProgramExamples
pub mod Outcomes
pub mod Releases
use realtime_tests.Prelude.Int.{ℤ, pos, negsuc}
use realtime_tests.Sched.Fifo.{is_ok}
use realtime_tests.Prelude.{
  ℕ, zero, suc, ◌+◌, Bool, true, false, not, ◌&&◌, ◌||◌, List, [], ◌∷◌, ◌++◌, ◌==◌, if◌then◌else◌,
}

-- What the programs hold. The numbers are those of the tasks, of the processors, or the
-- milliseconds of a busy loop; `times` are the WCET, the period and the deadline of a task. A time
-- is held from where it is set to be collected manually; the times under automatic collection
-- are left out.
pub data Resource : Type 0 where
  default_gov job_stats_overhead task_overhead overhead ktrace_file mutex green_light : Resource
  tolerance mutex_attributes offset_to_start : Resource
  times busyloop tau gov_cpu period : ℕ → Resource

-- What the code asks of the system and of the library, each with one answer.
pub data Call : Type 0 where
  log_opens atexit enter_up_mode memory_lock has_argument : Call
  job_statistics_overhead finish_to_start_overhead clock_gettime : Call
  wcet_suffices create_cpu_busyloop task_create sched_fifo_prio : ℕ → Call
  sched_fifo_enter_max setprotocol trace_opens setvbuf clock_nanosleep : Call
  pthread_create pthread_join thread_succeeds : ℕ → Call
  get_last_cpu barrier_init is_parallel : Call
  arrives : ℕ → Call
  cpu_freq_get_governor cpu_freq_set_max : ℕ → Call

pub data Event : Type 0 where
  acquired released : Resource → Event
  started stopped joined : ℕ → Event
  wrote : ℕ → Event

-- What follows a call that fails: the program exits at once, goes to its clean-up, only logs it,
-- or never gets on.
pub data Failure : Type 0 where
  exits_at_once goes_to_error is_logged waits_forever : Failure

-- A part of a program: what is done before a call, the call, and what is done if it succeeds.
pub record Step : Type 0 where
  pub before : List Event
  pub call : Call
  pub failure : Failure
  pub effects : List Event

abbrev pub fatally : Call → List Event → Step
fatally c es = record { before = []; call = c; failure = exits_at_once; effects = es }

abbrev pub or_error : Call → List Event → Step
or_error c es = record { before = []; call = c; failure = goes_to_error; effects = es }

abbrev pub checked : Call → Step
checked c = or_error c []

-- How the steps end, with the call that failed.
pub data Ending : Type 0 where
  succeeds : Ending
  fails exits hangs : Call → Ending

abbrev pub otherwise : Failure → Call → Ending × List Event → Ending × List Event
otherwise exits_at_once c rest = (exits c, [])
otherwise goes_to_error c rest = (fails c, [])
otherwise is_logged c rest = rest
otherwise waits_forever c rest = (hangs c, [])

abbrev pub after : List Event → Ending × List Event → Ending × List Event
after es (end, rest) = (end, es ++ rest)

-- The steps in turn.
unfoldable pub run : (Call → Bool) → List Step → Ending × List Event
run ok [] = (succeeds, [])
run ok (s ∷ ss) =
    let rest = run ok ss in
    after s.before (if ok s.call then after s.effects rest else otherwise s.failure s.call rest)

abbrev kind : Resource → ℕ
kind default_gov = 0
kind job_stats_overhead = 1
kind task_overhead = 2
kind overhead = 3
kind ktrace_file = 4
kind mutex = 5
kind green_light = 6
kind (times n) = 7
kind (busyloop n) = 8
kind (tau n) = 9
kind (gov_cpu n) = 10
kind (period n) = 11
kind tolerance = 12
kind mutex_attributes = 13
kind offset_to_start = 14

abbrev number : Resource → ℕ
number (times n) = n
number (busyloop n) = n
number (tau n) = n
number (gov_cpu n) = n
number (period n) = n
number _ = 0

abbrev pub same : Resource → Resource → Bool
same r r' = kind r == kind r' && number r == number r'

-- Whether the variable of a resource is set, or not NULL.
unfoldable pub is_set : Resource → List Event → Bool
is_set r [] = false
is_set r (acquired r' ∷ es) = same r r' || is_set r es
is_set r (_ ∷ es) = is_set r es

-- The part behind the label `error`: what is set is released, in that order.
unfoldable pub clean_up : List Resource → List Event → List Event
clean_up [] es = []
clean_up (r ∷ rs) es = let rest = clean_up rs es in if is_set r es then released r ∷ rest else rest

-- The steps of MAIN_BEGIN, and `cleanup_restore_gov`, which runs at every exit behind them.
abbrev pub main_begin : List Step
main_begin =
    fatally log_opens []
    ∷ fatally atexit []
    ∷ fatally enter_up_mode (acquired default_gov ∷ [])
    ∷ []

abbrev pub cleanup_restore_gov : List Event → List Event
cleanup_restore_gov = clean_up (default_gov ∷ [])

-- How a program exits, if it does.
pub data Exit : Type 0 where
  exit_success exit_failure never : Exit

abbrev pub finish : List Resource → Ending × List Event → Exit × List Event
finish variables (succeeds, es) =
    (exit_success, es ++ (clean_up variables es ++ cleanup_restore_gov es))
finish variables (fails c, es) =
    (exit_failure, es ++ (clean_up variables es ++ cleanup_restore_gov es))
finish variables (exits c, es) = (exit_failure, es ++ cleanup_restore_gov es)
finish variables (hangs c, es) = (never, es)

-- A program: how it exits, and what it did, in order.
unfoldable pub main : List Step → List Resource → (Call → Bool) → Exit × List Event
unfolding run
main steps variables ok = finish variables (run ok (main_begin ++ steps))

-- The macros of the programs, for some numbers in turn.
unfoldable pub each : (ℕ → Step) → List ℕ → List Step
each macro [] = []
each macro (id ∷ ids) = macro id ∷ each macro ids

abbrev pub check_wcet : ℕ → Step
check_wcet id = checked (wcet_suffices id)

abbrev pub create_busyloop : ℕ → Step
create_busyloop id = or_error (create_cpu_busyloop id) (acquired (busyloop id) ∷ [])

abbrev pub create_task : ℕ → Step
create_task id = or_error (task_create id) (acquired (tau id) ∷ [])

-- The busy loops of the tasks, with a tolerance that is collected manually around them.
abbrev pub first_busyloop : ℕ → Step
first_busyloop id = record (create_busyloop id) { before = acquired tolerance ∷ [] }

abbrev pub last_busyloop : ℕ → Step
last_busyloop id = record (create_busyloop id) {
  effects = acquired (busyloop id) ∷ released tolerance ∷ [];
}

abbrev pub read_clock : Step
read_clock = checked clock_gettime

abbrev pub set_prio : ℕ → Step
set_prio id = checked (sched_fifo_prio id)

abbrev pub create_task_thread : ℕ → Step
create_task_thread id = or_error (pthread_create id) (started id ∷ [])

abbrev pub join_thread : ℕ → Step
join_thread id = or_error (pthread_join id) (joined id ∷ [])

abbrev pub check_rc : ℕ → Step
check_rc id = checked (thread_succeeds id)

abbrev pub determine_overheads : List Step
determine_overheads =
    or_error job_statistics_overhead (acquired job_stats_overhead ∷ [])
    ∷ or_error finish_to_start_overhead (acquired task_overhead ∷ acquired overhead ∷ [])
    ∷ []

-- The variables of the overheads, in the order of the clean-up.
abbrev pub overheads : List Resource
overheads = overhead ∷ task_overhead ∷ job_stats_overhead ∷ []

-- `task_thread`: what it leaves in `rc`, of what entering the scheduler and `task_start` return.
abbrev pub task_thread : ℤ → ℤ → ℤ
task_thread entered completed =
    if not (is_ok entered) then entered else if not (is_ok completed) then negsuc 1 else pos 0
