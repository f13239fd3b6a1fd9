-- ===== src/Bwi/ServerExamples.antt =====
-- The server on concrete options.
use realtime_tests.Prelude.{◌≡◌, refl, false, List, [], ◌∷◌}
use realtime_tests.Prelude.Int.{pos}
use realtime_tests.Getopt.{goes_on, get_options}
use realtime_tests.Bwi.ServerOptions.{Opt, Settings, set_option, check_settings, settings}

abbrev options : List Opt
options =
    Opt.serving (pos 0)
    ∷ Opt.port (pos 5000)
    ∷ Opt.subserver (pos 5001)
    ∷ Opt.subserver_process (pos 77)
    ∷ Opt.period (pos 100)
    ∷ Opt.budget (pos 20)
    ∷ []

abbrev server : Settings
server = record {
  processing_duration_ms = pos 0;
  server_port = pos 5000;
  cbs_budget_ms = pos 20;
  cbs_period_ms = pos 100;
  subserver_port = pos 5001;
  subserver_pid = pos 77;
}

options-settings : settings (λ n. false) options ≡ goes_on server
unfolding settings get_options set_option check_settings
options-settings = refl
