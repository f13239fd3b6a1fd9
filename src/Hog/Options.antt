-- ===== src/Hog/Options.antt =====
-- hrt_cbs.c: the options of the program, and the task that it creates from them.
use realtime_tests.Prelude.{
  ℕ, ◌/◌, Bool, true, false, not, ◌&&◌, Option, none, some, List, [], if◌then◌else◌,
}
use realtime_tests.Prelude.Int.{ℤ, pos, negsuc, leb_ℤ, is_minus_one}
use realtime_tests.Getopt.{Exits, goes_on, fails, succeeds, fails_if, get_options}
use realtime_tests.Time.{Timespec, TimeUnit, to_utility_time_fields, plus}
use realtime_tests.Task.{TaskParams}

abbrev pub minus_one : ℤ
minus_one = negsuc 0

-- What `getopt` returns in turn, with the number that `atoi` makes of an argument.
pub data Opt : Type 0 where
  name : List ℕ → Opt
  stats_file : List ℕ → Opt
  wcet duration period budget deadline : ℤ → Opt
  help unrecognized missing : Opt

-- The variables of `main`; a name that is not given is `none`.
pub record Settings : Type 0 where
  pub task_name : Option (List ℕ)
  pub stats_file_path : Option (List ℕ)
  pub wcet_ms : ℤ
  pub budget_ms : ℤ
  pub deadline_ms : ℤ
  pub period_ms : ℤ
  pub duration_ms : ℤ

abbrev pub no_settings : Settings
no_settings = record {
  task_name = none;
  stats_file_path = none;
  wcet_ms = minus_one;
  budget_ms = minus_one;
  deadline_ms = minus_one;
  period_ms = minus_one;
  duration_ms = minus_one;
}

abbrev pub if_positive : ℤ → Settings → Exits Settings
if_positive n s = fails_if (leb_ℤ n (pos 0)) s

unfoldable pub set_option : Opt → Settings → Exits Settings
set_option (name n) s = goes_on (record s { task_name = some n })
set_option (stats_file f) s = goes_on (record s { stats_file_path = some f })
set_option (wcet n) s = if_positive n (record s { wcet_ms = n })
set_option (duration n) s = if_positive n (record s { duration_ms = n })
set_option (period n) s = if_positive n (record s { period_ms = n })
set_option (budget n) s = if_positive n (record s { budget_ms = n })
set_option (deadline n) s = if_positive n (record s { deadline_ms = n })
set_option help s = succeeds
set_option unrecognized s = fails
set_option missing s = fails

abbrev pub is_given : Option (List ℕ) → Bool
is_given none = false
is_given (some n) = true

-- The tests behind the loop.
unfoldable pub check_settings : Settings → Bool
check_settings s =
    is_given s.task_name
    && is_given s.stats_file_path
    && (not (is_minus_one s.wcet_ms)
        && (not (is_minus_one s.budget_ms)
            && (not (is_minus_one s.period_ms)
                && (not (is_minus_one s.duration_ms)
                    && (leb_ℤ s.period_ms s.duration_ms
                        && ((if is_minus_one s.deadline_ms
                              then leb_ℤ s.wcet_ms s.budget_ms
                              else leb_ℤ s.wcet_ms s.deadline_ms && leb_ℤ s.deadline_ms s.budget_ms)
                            && leb_ℤ s.budget_ms s.period_ms))))))

abbrev pub checked : Exits Settings → Exits Settings
checked (goes_on s) = if check_settings s then goes_on s else fails
checked fails = fails
checked succeeds = succeeds

unfoldable pub settings : List Opt → Exits Settings
settings os = checked (get_options set_option os no_settings)

-- Conversions of an `int` that is known to be positive.
abbrev pub number : ℤ → ℕ
number (pos n) = n
number (negsuc n) = 0

abbrev pub in_ms : ℤ → Timespec
in_ms n = to_utility_time_fields (number n) TimeUnit.ms

abbrev pub text_of : Option (List ℕ) → List ℕ
text_of none = []
text_of (some n) = n

-- The arguments of `task_create`, one second after `t_now`.
unfoldable pub task_of :
    Settings → Timespec → (job_stats_overhead task_overhead : Timespec) → TaskParams
task_of s t_now job_stats_overhead task_overhead = record {
  name = text_of s.task_name;
  wcet = in_ms s.wcet_ms;
  period = in_ms s.period_ms;
  deadline = (if is_minus_one s.deadline_ms then in_ms s.period_ms else in_ms s.deadline_ms);
  t_0 = plus t_now (to_utility_time_fields 1 TimeUnit.s);
  offset = to_utility_time_fields 0 TimeUnit.ms;
  job_statistics_overhead = job_stats_overhead;
  finish_to_start_overhead = task_overhead;
  aperiodic = false;
  ringbuffer_size = number s.duration_ms / number s.period_ms;
  ringbuffer_disable_overrun = true;
}
