-- ===== src/Bwi/Toggled.antt =====
-- bwi-client_server/server.c: two signals give the server its old scheduler back.
use realtime_tests.Prelude.{
  ℕ, ◌≡◌, refl, sym, ap, ◌∙◌, Bool, true, false, not, Option, none, some, Bool-cases, inl, inr,
  arith,
}
use realtime_tests.Prelude.Int.{ℤ, pos, negsuc}
use realtime_tests.Sched.{Kernel, Scheduler, sched_save}
use realtime_tests.Sched.Fifo.{
  is_ok, sched_fifo_enter, sched_fifo_prio, enter_at, sched_fifo_enter_max, sched_fifo_leave,
}
use realtime_tests.Sched.Restored.{IsFaithful, Runs, sched_fifo_enter-leave}
use realtime_tests.Bwi.Signals.{
  Signalled, tell_subserver, after_leave, after_enter, kept, toggled, sigusr1,
}

is_ok_zero : (rc : ℤ) → is_ok rc ≡ true → rc ≡ pos 0
is_ok_zero (pos n) h = ground arith
is_ok_zero (negsuc n) h = absurd (ground arith)

module _ (k : Kernel) where
  open k use {State, sched_fifo, getschedparam}

  -- An entry at the maximum that succeeds is an entry at some priority.
  pub record Entered (old : Scheduler) (w : State) (x : ℤ × Option Scheduler × State) : Type 0 where
    pub prio : ℕ
    pub saved : Scheduler
    pub entered : sched_fifo_enter k prio (some old) w ≡ (pos 0, some saved, x.2)
    pub stored : x.1 ≡ some saved

  sched_save-kept :
      (old : Scheduler) (w : State)
      → (sched_save k (some old) w).1 ≡ some (kept old (sched_save k (some old) w).1)
  unfolding sched_save
  sched_save-kept old w = ground arith

  enter-Entered :
      (prio : ℕ) (old : Scheduler) (w : State)
      → (sched_fifo_enter k prio (some old) w).0 ≡ pos 0
      → Entered old w (sched_fifo_enter k prio (some old) w)
  unfolding sched_fifo_enter
  enter-Entered prio old w e = record {
    prio = prio;
    saved = kept old (sched_save k (some old) w).1;
    entered = ground (arith, sched_save-kept old w);
    stored = ground (arith, sched_save-kept old w);
  }

  enter_at-Entered :
      (old : Scheduler) (w : State) (x : ℤ × Option ℕ)
      → (enter_at k (some old) w x).0 ≡ pos 0
      → Entered old w (enter_at k (some old) w x)
  enter_at-Entered old w (pos n, some prio) e = enter-Entered prio old w e
  enter_at-Entered old w (pos n, none) e = absurd (ground arith)
  enter_at-Entered old w (negsuc n, stored) e = absurd (ground arith)

  enter_max-Entered :
      (old : Scheduler) (w : State)
      → (sched_fifo_enter_max k (some old) w).0 ≡ pos 0
      → Entered old w (sched_fifo_enter_max k (some old) w)
  unfolding sched_fifo_enter_max
  enter_max-Entered old w e = enter_at-Entered old w (sched_fifo_prio k 0 w) e

  after_enter_lem :
      (s : Signalled k) (x : ℤ × Option Scheduler × State)
      → s.old_scheduler_set ≡ false
      → (after_enter k s x).old_scheduler_set ≡ true
      → (x.0 ≡ pos 0)
        × ((after_enter k s x).old_scheduler ≡ kept s.old_scheduler x.1)
        × ((after_enter k s x).kernel ≡ x.2)
  after_enter_lem s (rc, saved, w) off on = elim (Bool-cases (is_ok rc)) [
    | inl ok ↦ (is_ok_zero rc ok, ground (arith, ok), ground (arith, ok))
    | inr bad ↦ absurd (ground (arith, on, off, bad))
  ]

  after_leave_lem :
      (s : Signalled k) (x : ℤ × State)
      → s.old_scheduler_set ≡ true
      → (after_leave k s x).old_scheduler_set ≡ false
      → (x.0 ≡ pos 0) × ((after_leave k s x).kernel ≡ x.1)
  after_leave_lem s (rc, w) on off = elim (Bool-cases (is_ok rc)) [
    | inl ok ↦ (is_ok_zero rc ok, ground (arith, ok))
    | inr bad ↦ absurd (ground (arith, on, off, bad))
  ]

  toggled_on :
      (s : Signalled k) (x : Option State) (s1 : Signalled k)
      → s.old_scheduler_set ≡ false
      → toggled k s x ≡ some s1
      → (w : State) × (x ≡ some w)
        × (after_enter k s (sched_fifo_enter_max k (some s.old_scheduler) w) ≡ s1)
  toggled_on s none s1 off e = absurd (ground arith)
  toggled_on s (some w) s1 off e = (w, refl, ground (arith, e, off))

  toggled_off :
      (s : Signalled k) (x : Option State) (s1 : Signalled k)
      → s.old_scheduler_set ≡ true
      → toggled k s x ≡ some s1
      → (w : State) × (x ≡ some w) × (after_leave k s (sched_fifo_leave k s.old_scheduler w) ≡ s1)
  toggled_off s none s1 on e = absurd (ground arith)
  toggled_off s (some w) s1 on e = (w, refl, ground (arith, e, on))

  module _ (tell : State → Bool × State) (is_fifo : State → Bool × State) where
    -- Where the library and the kernel give back the parameters that were set: if a SIGUSR1 turns
    -- SCHED_FIFO on, the thread runs under it, and the scheduler that it had when the subserver
    -- was done is remembered; if a second SIGUSR1 turns it off, whatever happened to the thread
    -- in between, it has that scheduler again.
    pub sigusr1-twice :
        (has_subserver : Bool) (s s1 s2 : Signalled k) (v : State)
        → IsFaithful k
        → s.old_scheduler_set ≡ false
        → sigusr1 k tell is_fifo has_subserver s ≡ some s1
        → s1.old_scheduler_set ≡ true
        → sigusr1 k tell is_fifo has_subserver (record s1 { kernel = v }) ≡ some s2
        → s2.old_scheduler_set ≡ false
        → ((w : State) × (tell_subserver k tell is_fifo has_subserver true s.kernel ≡ some w)
            × Runs k s1.old_scheduler w)
          × ((getschedparam s1.kernel).1 ≡ sched_fifo)
          × Runs k s1.old_scheduler s2.kernel
    unfolding sigusr1
    sigusr1-twice has_subserver s s1 s2 v f off first on second off' =
        let (w, told, entered) =
          toggled_on s
            (tell_subserver k tell is_fifo has_subserver (not s.old_scheduler_set) s.kernel) s1 off
            first in
        let (w', told', left) = toggled_off (record s1 { kernel = v }) _ s2 on second in
        let x = sched_fifo_enter_max k (some s.old_scheduler) w in
        let (ok, old, kernel) =
          after_enter_lem s x off (ap (λ z. z.old_scheduler_set) entered ∙ on) in
        let (ok', kernel') =
          after_leave_lem (record s1 { kernel = v }) (sched_fifo_leave k s1.old_scheduler w') on
            (ap (λ z. z.old_scheduler_set) left ∙ off') in
        let en = enter_max-Entered s.old_scheduler w ok in
        let same : s1.old_scheduler ≡ en.saved =
          ap (λ z. z.old_scheduler) (sym entered) ∙ old ∙ ap (kept s.old_scheduler) en.stored in
        let there : s1.kernel ≡ x.2 = ap (λ z. z.kernel) (sym entered) ∙ kernel in
        let back : sched_fifo_leave k s1.old_scheduler w' ≡ (pos 0, s2.kernel) =
          cc (ok', sym kernel' ∙ ap (λ z. z.kernel) left) in
        let (had, runs, has) =
          sched_fifo_enter-leave k en.prio s.old_scheduler s1.old_scheduler w s1.kernel w' s2.kernel
            f (rw (same, there) en.entered) back in
        (
          (
            w,
            ap (λ b. tell_subserver k tell is_fifo has_subserver (not b) s.kernel) (sym off) ∙ told,
            had,
          ),
          ap (λ z. z.1) runs,
          has,
        )
