-- ===== src/Bwi/Driver/Slept.antt =====
-- bwi-client_server/main.c: what holds of the command line that the driver accepts.
use realtime_tests.Prelude.{ℕ, ◌*◌, ◌≡◌, true, ◌&&◌, ◌||◌, List, [], ◌∷◌}
use realtime_tests.Prelude.Int.{pos, leb_ℤ, is_minus_one}
use realtime_tests.Bwi.Driver.{is_there}
use realtime_tests.Bwi.Driver.Arguments.{
  seconds, milliseconds, neither, Opt, start_at, stop_at, budget_period, config, duration, help,
  unrecognized, missing, Arguments,
}

abbrev IsFine : Arguments → Type 0
IsFine a =
    ((is_minus_one a.cbs_budget_period_ms || leb_ℤ (pos 1) a.cbs_budget_period_ms)
      && ((is_minus_one a.ftrace_start || leb_ℤ (pos 1) a.ftrace_start)
          && (is_minus_one a.ftrace_stop || leb_ℤ (pos 1) a.ftrace_stop)))
    ≡ true

-- What the help text promises.
pub record IsAccepted (a : Arguments) : Type 0 where
  pub configured : is_there a.config_path ≡ true
  pub reserves : leb_ℤ (pos 1) a.cbs_budget_period_ms ≡ true
  pub traces :
      ((is_minus_one a.ftrace_start && is_minus_one a.ftrace_stop)
        || (leb_ℤ (pos 1) a.ftrace_start && leb_ℤ (pos 1) a.ftrace_stop))
      ≡ true

-- The microseconds that the last -t asks for, `us` before the first one.
unfoldable pub asked_us : List Opt → ℕ → ℕ
asked_us [] us = us
asked_us (duration n seconds ∷ os) us = asked_us os (n * 1000000)
asked_us (duration n milliseconds ∷ os) us = asked_us os (n * 1000)
asked_us (duration n neither ∷ os) us = asked_us os us
asked_us (start_at n ∷ os) us = asked_us os us
asked_us (stop_at n ∷ os) us = asked_us os us
asked_us (budget_period n ∷ os) us = asked_us os us
asked_us (config path ∷ os) us = asked_us os us
asked_us (help ∷ os) us = asked_us os us
asked_us (unrecognized ∷ os) us = asked_us os us
asked_us (missing ∷ os) us = asked_us os us
