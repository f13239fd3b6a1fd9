-- ===== src/Experiment/Multicore.antt =====
-- multicore_means_parallel_threads/main.c, part by part.
use realtime_tests.Prelude.{Bool, not, ◌&&◌, List, [], ◌∷◌, ◌++◌, if◌then◌else◌}
use realtime_tests.Time.{Timespec, UtilityTime, zeroed, minus, utility_time_ge, utility_time_gt}
use realtime_tests.Experiment.{
  Resource, Call, Event, Step, Exit, or_error, checked, main, each, create_busyloop,
  create_task_thread, check_rc, acquired, joined, is_logged, waits_forever,
}

-- `thread_fn`: whether it arrives at the barrier, and whether it leaves EXIT_SUCCESS.
abbrev pub thread_fn : (locks enters : Bool) → Bool × Bool
thread_fn locks enters = (locks && enters, locks && enters)

unfoldable pub prepare : List Step
unfolding each
prepare =
    checked Call.get_last_cpu
    ∷ or_error (Call.cpu_freq_get_governor 0) (acquired (Resource.gov_cpu 0) ∷ [])
    ∷ or_error (Call.cpu_freq_get_governor 1) (acquired (Resource.gov_cpu 1) ∷ [])
    ∷ checked (Call.cpu_freq_set_max 0)
    ∷ checked (Call.cpu_freq_set_max 1)
    ∷ (each create_busyloop (0 ∷ 1 ∷ [])
        ++ (or_error Call.barrier_init (acquired Resource.green_light ∷ []) ∷ []))

-- The barrier lets the three threads go when all of them have arrived. A failure to join
-- is only logged.
unfoldable pub run_threads : List Step
unfolding each
run_threads =
    each create_task_thread (0 ∷ 1 ∷ [])
    ++ (record { before = []; call = Call.arrives 0; failure = waits_forever; effects = [] }
        ∷ record { before = []; call = Call.arrives 1; failure = waits_forever; effects = [] }
        ∷ record {
          before = [];
          call = Call.pthread_join 0;
          failure = is_logged;
          effects = joined 0 ∷ [];
        }
        ∷ record {
          before = [];
          call = Call.pthread_join 1;
          failure = is_logged;
          effects = joined 1 ∷ [];
        }
        ∷ (each check_rc (0 ∷ 1 ∷ []) ++ (checked Call.is_parallel ∷ [])))

abbrev pub steps : List Step
steps = prepare ++ run_threads

abbrev pub variables : List Resource
variables =
    Resource.busyloop 1
    ∷ Resource.busyloop 0
    ∷ Resource.gov_cpu 1
    ∷ Resource.gov_cpu 0
    ∷ Resource.green_light
    ∷ []

unfoldable pub experiment : (Call → Bool) → Exit × List Event
experiment = main steps variables

abbrev pub variable : Timespec → UtilityTime
variable t = record zeroed { t = t }

-- The difference of two times, taken from the larger one.
abbrev pub delta : Timespec → Timespec → Timespec
delta a b =
    if utility_time_ge (variable a) (variable b)
    then minus (variable a) (variable b)
    else minus (variable b) (variable a)

-- The tests of the readings of the two threads: none of the three differences is over the
-- tolerance.
unfoldable pub is_parallel : (t_begin0 t_end0 t_begin1 t_end1 tolerance : Timespec) → Bool
is_parallel t_begin0 t_end0 t_begin1 t_end1 tolerance =
    let duration0 = minus (variable t_end0) (variable t_begin0) in
    let duration1 = minus (variable t_end1) (variable t_begin1) in
    not (utility_time_gt (variable (delta t_begin0 t_begin1)) (variable tolerance))
    && (not (utility_time_gt (variable (delta duration0 duration1)) (variable tolerance))
        && not (utility_time_gt (variable (delta t_end0 t_end1)) (variable tolerance)))
