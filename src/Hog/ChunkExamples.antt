-- ===== src/Hog/ChunkExamples.antt =====
-- cpu_hog_cbs.c on concrete options.
use realtime_tests.Prelude.{ℕ, ◌+◌, ◌*◌, ◌≡◌, refl, ltb, if◌then◌else◌, none, List, [], ◌∷◌, arith}
use realtime_tests.Prelude.Int.{pos}
use realtime_tests.Time.{Timespec, timespec, million, to_utility_time_fields}
use realtime_tests.Getopt.{goes_on, get_options}
use realtime_tests.Hog.Chunks.{
  Opt, Settings, no_settings, set_option, check_settings, settings, IsAccepted, hog, chunks_lem,
}
use realtime_tests.Hog.Cycles.{cycle, Advances, IsOver}

abbrev options : List Opt
options =
    Opt.exec_time (pos 1)
    ∷ Opt.break_time (pos 0)
    ∷ Opt.budget (pos 2)
    ∷ Opt.period (pos 5)
    ∷ Opt.stopping (pos 3)
    ∷ []

abbrev chunks : Settings
chunks = record no_settings {
  exec_time_ms = pos 1;
  break_time_ms = pos 0;
  cbs_budget_ms = pos 2;
  cbs_period_ms = pos 5;
  stopping_time = pos 3;
}

options-settings : settings options ≡ goes_on chunks
unfolding settings get_options set_option check_settings
options-settings = refl

-- A world that is its number of nanoseconds, which stops at ten million; a reading takes one, a
-- cycle three.
abbrev elapse : ℕ → ℕ
elapse w = if ltb w 10000000 then w else 10000000

abbrev clock : ℕ → Timespec × ℕ
clock w = (timespec 0 (elapse w), w + 1)

abbrev busy : ℕ → ℕ
busy w = w + 3

abbrev sleep : Timespec → ℕ → ℕ
sleep t w = w

clock-Advances : Advances clock busy sleep elapse 3000007 none
unfolding cycle
clock-Advances = record {
  reads = λ w. ground arith;
  normal = λ w. ground arith;
  onward = λ w. ground arith;
  stays = λ w. ground arith;
  takes = λ w early. ground arith;
}

chunks_lem_example :
    IsAccepted chunks
    × IsOver clock busy sleep elapse 3000007 0 3000001
        (hog clock busy sleep (3 * million + 1) chunks 7)
unfolding to_utility_time_fields
chunks_lem_example =
    chunks_lem clock busy sleep elapse options chunks 7 options-settings refl (omega arith)
      clock-Advances
