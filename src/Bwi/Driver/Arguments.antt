-- ===== src/Bwi/Driver/Arguments.antt =====
-- bwi-client_server/main.c: the command line of the driver, and how long the experiment runs.
use realtime_tests.Prelude.{
  ℕ, ◌*◌, ◌%◌, ◌^◌, Bool, not, ◌&&◌, ◌||◌, Option, none, some, List, ◌==◌, long_mod,
}
use realtime_tests.Prelude.Int.{ℤ, pos, negsuc, leb_ℤ, is_minus_one}
use realtime_tests.Getopt.{Exits, goes_on, fails, succeeds, fails_if, get_options}
use realtime_tests.Bwi.Driver.{is_there, ulong_max}

-- What stands behind the number of -t.
pub data DurationUnit : Type 0 where
  seconds milliseconds neither : DurationUnit

-- What `getopt` returns in turn, with the numbers that `atoi` and `strtoul` make of an argument.
pub data Opt : Type 0 where
  start_at stop_at budget_period : ℤ → Opt
  config : List ℕ → Opt
  duration : ℕ → DurationUnit → Opt
  help unrecognized missing : Opt

-- The variables of the file. A duration of ULONG_MAX is not given.
pub record Arguments : Type 0 where
  pub config_path : Option (List ℕ)
  pub experiment_duration_ms : ℕ
  pub cbs_budget_period_ms : ℤ
  pub ftrace_start : ℤ
  pub ftrace_stop : ℤ

abbrev pub no_arguments : Arguments
no_arguments = record {
  config_path = none;
  experiment_duration_ms = ulong_max;
  cbs_budget_period_ms = negsuc 0;
  ftrace_start = negsuc 0;
  ftrace_stop = negsuc 0;
}

-- Seconds become milliseconds in the arithmetic of an unsigned long.
abbrev pub duration_option : ℕ → DurationUnit → Arguments → Exits Arguments
duration_option n seconds a =
    fails_if (n == 0) (record a { experiment_duration_ms = n * 1000 % long_mod })
duration_option n milliseconds a = fails_if (n == 0) (record a { experiment_duration_ms = n })
duration_option n neither a = fails

-- -h makes the function return EXIT_SUCCESS at once, here `succeeds`; `main` does not tell that
-- from an index, and goes on with the variables as they are.
unfoldable pub set_argument : Opt → Arguments → Exits Arguments
set_argument (start_at n) a = fails_if (leb_ℤ n (pos 0)) (record a { ftrace_start = n })
set_argument (stop_at n) a = fails_if (leb_ℤ n (pos 0)) (record a { ftrace_stop = n })
set_argument (budget_period n) a =
    fails_if (leb_ℤ n (pos 0)) (record a { cbs_budget_period_ms = n })
set_argument (config path) a = goes_on (record a { config_path = some path })
set_argument (duration n unit) a = duration_option n unit a
set_argument help a = succeeds
set_argument unrecognized a = fails
set_argument missing a = fails

-- The tests behind the loop.
unfoldable pub check_arguments : Arguments → Bool
check_arguments a =
    not (a.experiment_duration_ms == ulong_max)
    && (not (is_minus_one a.cbs_budget_period_ms)
        && (is_there a.config_path
            && not (
                (not (is_minus_one a.ftrace_start) && is_minus_one a.ftrace_stop)
                || (is_minus_one a.ftrace_start && not (is_minus_one a.ftrace_stop)))))

abbrev pub checked : Exits Arguments → Exits Arguments
checked (goes_on a) = fails_if (not (check_arguments a)) a
checked fails = fails
checked succeeds = succeeds

-- `goes_on` is the return of `optind`, `fails` that of -1.
unfoldable pub parse_cmd_line_args : List Opt → Exits Arguments
parse_cmd_line_args os = checked (get_options set_argument os no_arguments)

-- The microseconds that `main` sleeps for: the parameter of `usleep` has 32 bits.
unfoldable pub slept_us : Arguments → ℕ
slept_us a = a.experiment_duration_ms * 1000 % long_mod % 2 ^ 32
