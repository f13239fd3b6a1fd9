-- ===== src/Bwi/Driver/SleptExamples.antt =====
-- The driver with two hours on its command line.
use realtime_tests.Prelude.{some, List, [], ◌∷◌}
use realtime_tests.Prelude.Int.{pos, negsuc}
use realtime_tests.Bwi.Driver.Arguments.{Opt, duration, budget_period, config, seconds, Arguments}

abbrev two_hours : List Opt
two_hours = duration 7200 seconds ∷ budget_period (pos 10) ∷ config (b'f' ∷ []) ∷ []

abbrev arguments : Arguments
arguments = record {
  config_path = some (b'f' ∷ []);
  experiment_duration_ms = 7200000;
  cbs_budget_period_ms = pos 10;
  ftrace_start = negsuc 0;
  ftrace_stop = negsuc 0;
}
