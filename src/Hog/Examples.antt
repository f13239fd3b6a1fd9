-- ===== src/Hog/Examples.antt =====
-- The hogs on concrete options and on a clock of nanoseconds.
use realtime_tests.Prelude.{◌<◌, ◌≡◌, refl, some, List, [], ◌∷◌, arith}
use realtime_tests.Prelude.Int.{pos}
use realtime_tests.Time.{timespec}
use realtime_tests.Job.{JobstatsRingbuf}
use realtime_tests.Task.{encode_task_statistics}
use realtime_tests.Task.Create.{created, new_task, task_create}
use realtime_tests.Task.EndToEnd.{working_environment}
use realtime_tests.Getopt.{goes_on, get_options}
use realtime_tests.Hog.Options.{
  Opt, Settings, settings, task_of, minus_one, set_option, check_settings,
}
use realtime_tests.Hog.Accepted.{IsAccepted, settings_lem}

abbrev options : List Opt
options =
    Opt.name (b'h' ∷ [])
    ∷ Opt.stats_file (b'f' ∷ [])
    ∷ Opt.wcet (pos 20)
    ∷ Opt.budget (pos 25)
    ∷ Opt.period (pos 100)
    ∷ Opt.duration (pos 1000)
    ∷ []

abbrev hog : Settings
hog = record {
  task_name = some (b'h' ∷ []);
  stats_file_path = some (b'f' ∷ []);
  wcet_ms = pos 20;
  budget_ms = pos 25;
  deadline_ms = minus_one;
  period_ms = pos 100;
  duration_ms = pos 1000;
}

options-settings : settings options ≡ goes_on hog
unfolding settings get_options set_option check_settings
options-settings = refl

settings_lem_example :
    IsAccepted hog
    × ((r : JobstatsRingbuf) × (task_create working_environment
            (task_of hog (timespec 5 0) (timespec 0 0) (timespec 0 0))
          ≡ created
              (new_task (task_of hog (timespec 5 0) (timespec 0 0) (timespec 0 0)) (some r))
              (encode_task_statistics (task_of hog (timespec 5 0) (timespec 0 0) (timespec 0 0))))
        × (r.slot_count ≡ 10)
        × (0 < r.slot_count))
settings_lem_example =
    settings_lem options hog (timespec 5 0) (timespec 0 0) (timespec 0 0) options-settings
      (omega arith)
