-- ===== src/Bwi/Client/OptionExamples.antt =====
-- The client on concrete options.
use realtime_tests.Prelude.{
  ◌+◌, ◌*◌, ◌<◌, ◌≡◌, refl, true, some, List, [], ◌∷◌, add_long, sub_long, lt_long, arith,
}
use realtime_tests.Prelude.Int.{pos}
use realtime_tests.Time.{
  timespec, million, to_utility_time_fields, minus, utility_time_gt, utility_time_le,
}
use realtime_tests.Getopt.{goes_on, get_options}
use realtime_tests.Bwi.Client.Limits.{tracing_limits}
use realtime_tests.Bwi.Client.Options.{
  Opt, Settings, no_settings, set_option, check_settings, settings, charge, thread_prms,
}
use realtime_tests.Bwi.Client.Accepted.{IsAccepted, client_settings_lem}

abbrev options : List Opt
options =
    Opt.prologue (pos 20)
    ∷ Opt.waiting (pos 30)
    ∷ Opt.epilogue (pos 25)
    ∷ Opt.duration (pos 1050)
    ∷ Opt.period (pos 100)
    ∷ Opt.port (pos 5000)
    ∷ Opt.server (pos 77)
    ∷ Opt.stats_file (b'f' ∷ [])
    ∷ Opt.with_bwi
    ∷ []

abbrev client : Settings
client = record no_settings {
  prologue_duration_ms = pos 20;
  epilogue_duration_ms = pos 25;
  expected_waiting_ms = pos 30;
  period_ms = pos 100;
  server_port = pos 5000;
  server_pid = pos 77;
  use_bwi = true;
  duration_ms = pos 1050;
  stats_file_path = some (b'f' ∷ []);
}

options-settings : settings options ≡ goes_on client
unfolding settings get_options set_option check_settings tracing_limits
options-settings = refl

-- An overhead of two milliseconds is charged to the epilogue.
charged : charge (timespec 0 2000000) client ≡ some (timespec 0 20000000, timespec 0 23000000)
unfolding charge to_utility_time_fields minus utility_time_gt utility_time_le add_long sub_long
    lt_long
charged = refl

client_settings_lem_example :
    IsAccepted client
    × (0 < 75)
    × (0 < (thread_prms client).ringbuf_slot_count)
    × (20000000 + 23000000 + 2000000 ≡ (20 + 25) * million)
client_settings_lem_example =
    client_settings_lem options client (timespec 0 2000000) (timespec 0 20000000)
      (timespec 0 23000000) options-settings charged (omega arith) (omega arith)
