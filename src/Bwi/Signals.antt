-- ===== src/Bwi/Signals.antt =====
-- bwi-client_server/server.c: SIGUSR1 turns SCHED_FIFO on and off.
use realtime_tests.Prelude.{ℕ, zero, suc, Bool, true, false, not, Option, none, some, if◌then◌else◌}
use realtime_tests.Prelude.Int.{ℤ}
use realtime_tests.Sched.{Kernel, Scheduler}
use realtime_tests.Sched.Fifo.{is_ok, sched_fifo_enter_max, sched_fifo_leave}

-- The static variables of the server; `old_scheduler` is always there.
pub record Signalled (k : Kernel) : Type 0 where
  pub old_scheduler_set : Bool
  pub old_scheduler : Scheduler
  pub kernel : k.State

abbrev pub kept : Scheduler → Option Scheduler → Scheduler
kept old none = old
kept old (some saved) = saved

module _ (k : Kernel) where
  open k use {State}

  abbrev pub after_leave : Signalled k → ℤ × State → Signalled k
  after_leave s (rc, w) =
      if is_ok rc
      then record s { old_scheduler_set = false; kernel = w }
      else record s { kernel = w }

  abbrev pub after_enter : Signalled k → ℤ × Option Scheduler × State → Signalled k
  after_enter s (rc, saved, w) =
      if is_ok rc
      then record {
        old_scheduler_set = true;
        old_scheduler = kept s.old_scheduler saved;
        kernel = w;
      }
      else record s { old_scheduler = kept s.old_scheduler saved; kernel = w }

  abbrev pub toggled : Signalled k → Option State → Option (Signalled k)
  toggled s none = none
  toggled s (some w) =
      if s.old_scheduler_set
      then some (after_leave s (sched_fifo_leave k s.old_scheduler w))
      else some (after_enter s (sched_fifo_enter_max k (some s.old_scheduler) w))

  -- Waiting for the subserver: `tell` sends it the signal, and `is_fifo` asks for its policy,
  -- once in each of the rounds, which sleep a millisecond. `none` is a fatal error.
  module _ (tell : State → Bool × State) (is_fifo : State → Bool × State) where
    unfoldable pub wait_for : Bool → ℕ → State → Option State
    wait_for wanted zero w = none
    wait_for wanted (suc counter) w =
        let (now, w') = is_fifo w in
        let rest = wait_for wanted counter w' in
        if now then (if wanted then some w' else rest) else (if wanted then rest else some w')

    -- The part that signals the subserver, if there is one.
    unfoldable pub tell_subserver : Bool → Bool → State → Option State
    tell_subserver has_subserver wanted w =
        let (told, w') = tell w in
        let waited = wait_for wanted 500 w' in
        if not has_subserver then some w else if not told then none else waited

    -- `sighand` on SIGUSR1; `none` is a fatal error.
    unfoldable pub sigusr1 : Bool → Signalled k → Option (Signalled k)
    sigusr1 has_subserver s =
        toggled s (tell_subserver has_subserver (not s.old_scheduler_set) s.kernel)
