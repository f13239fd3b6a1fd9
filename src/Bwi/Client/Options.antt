-- ===== src/Bwi/Client/Options.antt =====
-- bwi-client_server/client.c: the options, where the overheads are charged, and the task.
use realtime_tests.Prelude.{
  ℕ, ◌/◌, Bool, true, false, not, ◌&&◌, ◌||◌, Option, none, some, List, [], ◌∷◌, if◌then◌else◌,
}
use realtime_tests.Prelude.Int.{ℤ, pos, negsuc, ◌+ℤ◌, leb_ℤ, is_minus_one}
use realtime_tests.Time.{Timespec, TimeUnit, to_utility_time_fields, plus, minus, utility_time_gt}
use realtime_tests.Getopt.{Exits, goes_on, fails, succeeds, fails_if, get_options}
use realtime_tests.Task.{TaskParams}
use realtime_tests.Bwi.Client.{ClientProgPrms, as_time}
use realtime_tests.Bwi.Client.Limits.{minus_one, tracing_limits}

-- What `getopt` returns in turn, with the number that `atoi` makes of an argument.
pub data Opt : Type 0 where
  offset duration trace_limit prologue waiting epilogue budget period port : ℤ → Opt
  server stop_at trace_at : ℤ → Opt
  stats_file : List ℕ → Opt
  with_bwi help unrecognized missing : Opt

-- The variables of `main`.
pub record Settings : Type 0 where
  pub prologue_duration_ms : ℤ
  pub epilogue_duration_ms : ℤ
  pub expected_waiting_ms : ℤ
  pub period_ms : ℤ
  pub offset_ms : ℤ
  pub server_port : ℤ
  pub server_pid : ℤ
  pub use_bwi : Bool
  pub stopping_iteration : ℤ
  pub ftrace_iteration : ℤ
  pub cbs_budget_ms : ℤ
  pub limit : ℤ
  pub duration_ms : ℤ
  pub stats_file_path : Option (List ℕ)

abbrev pub no_settings : Settings
no_settings = record {
  prologue_duration_ms = minus_one;
  epilogue_duration_ms = minus_one;
  expected_waiting_ms = minus_one;
  period_ms = minus_one;
  offset_ms = minus_one;
  server_port = minus_one;
  server_pid = minus_one;
  use_bwi = false;
  stopping_iteration = minus_one;
  ftrace_iteration = minus_one;
  cbs_budget_ms = minus_one;
  limit = minus_one;
  duration_ms = minus_one;
  stats_file_path = none;
}

abbrev pub is_below : ℤ → ℤ → Bool
is_below a b = not (leb_ℤ b a)

abbrev pub is_bad_port : ℤ → Bool
is_bad_port n = is_below n (pos 1024) || is_below (pos 65535) n

unfoldable pub set_option : Opt → Settings → Exits Settings
set_option (offset n) s = fails_if (is_below n (pos 0)) (record s { offset_ms = n })
set_option (duration n) s = fails_if (leb_ℤ n (pos 0)) (record s { duration_ms = n })
set_option (trace_limit n) s = fails_if (leb_ℤ n (pos 0)) (record s { limit = n })
set_option (prologue n) s = fails_if (is_below n (pos 0)) (record s { prologue_duration_ms = n })
set_option (waiting n) s = fails_if (is_below n (pos 0)) (record s { expected_waiting_ms = n })
set_option (epilogue n) s = fails_if (is_below n (pos 0)) (record s { epilogue_duration_ms = n })
set_option (budget n) s = fails_if (leb_ℤ n (pos 0)) (record s { cbs_budget_ms = n })
set_option (period n) s = fails_if (leb_ℤ n (pos 0)) (record s { period_ms = n })
set_option (port n) s = fails_if (is_bad_port n) (record s { server_port = n })
set_option with_bwi s = goes_on (record s { use_bwi = true })
set_option (server n) s = goes_on (record s { server_pid = n })
set_option (stop_at n) s = goes_on (record s { stopping_iteration = n })
set_option (trace_at n) s = goes_on (record s { ftrace_iteration = n })
set_option (stats_file f) s = goes_on (record s { stats_file_path = some f })
set_option help s = succeeds
set_option unrecognized s = fails
set_option missing s = fails

abbrev pub is_some : {A : Type 0} → Option A → Bool
is_some none = false
is_some (some x) = true

-- The sum, where it is in the range of an `int`.
abbrev pub wcet_of : Settings → ℤ
wcet_of s = s.prologue_duration_ms +ℤ s.expected_waiting_ms +ℤ s.epilogue_duration_ms

-- The tests behind the loop; each failure is fatal.
unfoldable pub check_settings : Settings → Bool
check_settings s =
    not (is_minus_one s.prologue_duration_ms)
    && (not (is_minus_one s.expected_waiting_ms)
        && (not (is_minus_one s.epilogue_duration_ms)
            && (not (is_minus_one s.duration_ms)
                && (not (is_minus_one s.period_ms)
                    && (leb_ℤ s.period_ms s.duration_ms
                        && ((if is_minus_one s.cbs_budget_ms
                              then leb_ℤ (wcet_of s) s.period_ms
                              else leb_ℤ s.cbs_budget_ms s.period_ms)
                            && (not (is_minus_one s.server_port)
                                && (is_some s.stats_file_path
                                    && (not (is_minus_one s.server_pid)
                                        && is_some
                                            (tracing_limits s.ftrace_iteration s.limit))))))))))

abbrev pub checked : Exits Settings → Exits Settings
checked (goes_on s) = fails_if (not (check_settings s)) s
checked fails = fails
checked succeeds = succeeds

unfoldable pub settings : List Opt → Exits Settings
settings os = checked (get_options set_option os no_settings)

-- Conversions of an `int` that is not negative.
abbrev pub number : ℤ → ℕ
number (pos n) = n
number (negsuc n) = 0

abbrev pub in_ms : ℤ → Timespec
in_ms n = to_utility_time_fields (number n) TimeUnit.ms

-- The durations of the two busy loops, once all overheads are charged; `none` is a fatal error.
unfoldable pub charge : Timespec → Settings → Option (Timespec × Timespec)
charge overhead s =
    let prologue = in_ms s.prologue_duration_ms in
    let epilogue = in_ms s.epilogue_duration_ms in
    if utility_time_gt (as_time epilogue) (as_time overhead)
    then some (prologue, minus (as_time epilogue) (as_time overhead))
    else if utility_time_gt (as_time prologue) (as_time overhead)
    then some (minus (as_time prologue) (as_time overhead), epilogue)
    else none

-- The sum of the overheads, without the time that the client waits for the server.
abbrev pub sum_of_overheads :
    Settings → (job_stats_overhead task_overhead exchange : Timespec) → Timespec
sum_of_overheads s job_stats_overhead task_overhead exchange =
    plus (plus (plus (to_utility_time_fields 0 TimeUnit.ms) job_stats_overhead) task_overhead)
      (minus (as_time exchange) (as_time (in_ms s.expected_waiting_ms)))

-- `client_thread_prms`, of which `budget_ms` is given to SCHED_DEADLINE.
pub record ClientThreadPrms : Type 0 where
  pub wcet_ms : ℤ
  pub budget_ms : ℤ
  pub period_ms : ℤ
  pub offset_ms : ℤ
  pub stats_file_path : Option (List ℕ)
  pub ringbuf_slot_count : ℕ

abbrev pub thread_prms : Settings → ClientThreadPrms
thread_prms s = record {
  wcet_ms = wcet_of s;
  budget_ms = (if is_minus_one s.cbs_budget_ms then wcet_of s else s.cbs_budget_ms);
  period_ms = s.period_ms;
  offset_ms = (if is_minus_one s.offset_ms then pos 0 else s.offset_ms);
  stats_file_path = s.stats_file_path;
  ringbuf_slot_count = number s.duration_ms / number s.period_ms;
}

-- The arguments of `task_create` in `client_thread`, one second after `t_now`.
unfoldable pub task_of :
    ClientThreadPrms → Timespec → (job_stats_overhead task_overhead : Timespec) → TaskParams
task_of p t_now job_stats_overhead task_overhead = record {
  name = b'c' ∷ b'l' ∷ b'i' ∷ b'e' ∷ b'n' ∷ b't' ∷ [];
  wcet = in_ms p.wcet_ms;
  period = in_ms p.period_ms;
  deadline = in_ms p.period_ms;
  t_0 = plus t_now (to_utility_time_fields 1 TimeUnit.s);
  offset = in_ms p.offset_ms;
  job_statistics_overhead = job_stats_overhead;
  finish_to_start_overhead = task_overhead;
  aperiodic = false;
  ringbuffer_size = p.ringbuf_slot_count;
  ringbuffer_disable_overrun = true;
}

-- The members of `client_prog_prms` that follow from the options.
abbrev pub prog_prms : List ℕ → Settings → ℤ × ℤ → ClientProgPrms
prog_prms request s (response_time_limit_ms, iteration_limit) = record {
  request = request;
  with_bwi = s.use_bwi && not (is_minus_one s.server_pid);
  stopping_iteration = s.stopping_iteration;
  ftrace_iteration = s.ftrace_iteration;
  ftrace_iteration_limit = iteration_limit;
  ftrace_response_time =
      (if is_minus_one response_time_limit_ms
        then to_utility_time_fields 0 TimeUnit.ms
        else in_ms response_time_limit_ms);
  period = in_ms s.period_ms;
}
