-- ===== src/Task/Stopped.antt =====
-- task.c: `task_stop` and the release loop of an aperiodic task, in every order of their steps.
use realtime_tests.Prelude.{◌≤◌, ◌≡◌, Bool, true, false, not, ◌&&◌, ◌||◌, ◌⊎◌, arith, ◌==◌}
use realtime_tests.Task.Stop.{
  Shared, Worker, waiting, released, in_job, left, killed, Caller, idle, testing, sleeping,
  cancelling, returned, Work, enter, event, start_job, end_job, die, Stop, stop, test, wake,
  sleep_failed, cancel, cancel_failed, is_running, Platform, System, Step, work, call, init, Run,
  start, later,
}

abbrev is_killed : Worker → Bool
is_killed killed = true
is_killed _ = false

abbrev is_inside : Worker → Bool
is_inside waiting = true
is_inside released = true
is_inside _ = false

abbrev is_past : Worker → Bool
is_past in_job = true
is_past left = true
is_past killed = true
is_past _ = false

abbrev is_returned : Caller → Bool
is_returned returned = true
is_returned _ = false

abbrev is_cancelling : Caller → Bool
is_cancelling cancelling = true
is_cancelling _ = false

abbrev is_waiting : Caller → Bool
is_waiting testing = true
is_waiting sleeping = true
is_waiting _ = false

is_waiting-cases : (c : Caller) → is_waiting c ≡ true → (c ≡ testing) ⊎ (c ≡ sleeping)
is_waiting-cases c h = ground arith

is_inside-cases : (w : Worker) → is_inside w ≡ true → (w ≡ waiting) ⊎ (w ≡ released)
is_inside-cases w h = ground arith

abbrev is_idle : Caller → Bool
is_idle idle = true
is_idle _ = false

abbrev same : Bool → Bool → Bool
same true b = b
same false b = not b

record Inv (p : Platform) (s : System) : Type 0 where
  flag : (is_killed s.worker || same s.shared.inside_aperiodic_release (is_inside s.worker)) ≡ true
  asked : (not s.shared.cancelled || is_returned s.caller) ≡ true
  asleep : (not (is_killed s.worker) || s.shared.cancelled) ≡ true
  begun : same s.shared.stopped (not (is_idle s.caller)) ≡ true
  before :
      (not (p.is_preferred && p.sleeps && is_cancelling s.caller)
        || s.shared.inside_aperiodic_release)
      ≡ true
  one : s.shared.late_jobs ≤ 1
  none_yet : ((s.shared.late_jobs == 0) || (s.shared.stopped && is_past s.worker)) ≡ true

Work-Inv :
    (p : Platform) (c : Caller) {m m' : Shared} {w w' : Worker}
    → (p.is_preferred && is_running c) ≡ false
    → Work m w m' w'
    → Inv p (record { shared = m; worker = w; caller = c })
    → Inv p (record { shared = m'; worker = w'; caller = c })
Work-Inv p c free enter inv = ground arith
Work-Inv p c free event inv = ground arith
Work-Inv p c free start_job inv = ground arith
Work-Inv p c free (end_job failed) inv = ground arith
Work-Inv p c free (die asked able) inv = ground arith

Stop-Inv :
    (p : Platform) (w : Worker) {m m' : Shared} {c c' : Caller}
    → Stop p.sleeps m c m' c'
    → Inv p (record { shared = m; worker = w; caller = c })
    → Inv p (record { shared = m'; worker = w; caller = c' })
Stop-Inv p w stop inv = ground arith
Stop-Inv p w test inv = ground arith
Stop-Inv p w wake inv = ground arith
Stop-Inv p w (sleep_failed broken) inv = ground arith
Stop-Inv p w cancel inv = ground arith
Stop-Inv p w cancel_failed inv = ground arith

Step-Inv : {p : Platform} {s t : System} → Step p s t → Inv p s → Inv p t
Step-Inv {p} {s} (work free mv) inv = Work-Inv p s.caller free mv inv
Step-Inv {p} {s} (call mv) inv = Stop-Inv p s.worker mv inv

Run-Inv : {p : Platform} {s : System} → Run p init s → Inv p s
Run-Inv start = ground arith
Run-Inv (later r st) = Step-Inv st (Run-Inv r)

-- If the task cannot preempt the thread that calls `task_stop`, and its sleep always works, then
-- the task is cancelled only when its thread waits for the event, or has got it and has not yet
-- started the job.
pub task_stop-waiting :
    {p : Platform} {s : System}
    → p.is_preferred ≡ true
    → p.sleeps ≡ true
    → Run p init s
    → s.caller ≡ cancelling
    → (s.worker ≡ waiting) ⊎ (s.worker ≡ released)
task_stop-waiting {p} {s} preferred sleeps r at =
    let inv = Run-Inv r in is_inside-cases s.worker (ground (arith, inv, preferred, sleeps, at))

-- On every platform and in every order of the steps, at most one job is started after `task_stop`
-- has been called.
pub one_late_job : {p : Platform} {s : System} → Run p init s → s.shared.late_jobs ≤ 1
one_late_job r = (Run-Inv r).one

-- When `task_stop` has been called during a job: the flag is not set, and will not be.
record Stuck (s : System) : Type 0 where
  stopped : s.shared.stopped ≡ true
  outside : s.shared.inside_aperiodic_release ≡ false
  unasked : s.shared.cancelled ≡ false
  past : (is_past s.worker && not (is_killed s.worker)) ≡ true
  waits : is_waiting s.caller ≡ true

Work-Stuck :
    (c : Caller) {m m' : Shared} {w w' : Worker}
    → Work m w m' w'
    → Stuck (record { shared = m; worker = w; caller = c })
    → Stuck (record { shared = m'; worker = w'; caller = c })
Work-Stuck c enter k = ground arith
Work-Stuck c event k = ground arith
Work-Stuck c start_job k = ground arith
Work-Stuck c (end_job failed) k = ground arith
Work-Stuck c (die asked able) k = ground arith

Stop-Stuck :
    (w : Worker) {m m' : Shared} {c c' : Caller}
    → Stop true m c m' c'
    → Stuck (record { shared = m; worker = w; caller = c })
    → Stuck (record { shared = m'; worker = w; caller = c' })
Stop-Stuck w stop k = ground arith
Stop-Stuck w test k = ground arith
Stop-Stuck w wake k = ground arith
Stop-Stuck w (sleep_failed broken) k = ground arith
Stop-Stuck w cancel k = ground arith
Stop-Stuck w cancel_failed k = ground arith

Run-Stuck :
    {preferred : Bool} {s t : System}
    → Run (record { is_preferred = preferred; sleeps = true }) s t
    → Stuck s
    → Stuck t
Run-Stuck start k = k
Run-Stuck {preferred = preferred} (later r st) k = next st (Run-Stuck r k)
  where
    next :
        {t u : System}
        → Step (record { is_preferred = preferred; sleeps = true }) t u
        → Stuck t
        → Stuck u
    next {t} (work free mv) k = Work-Stuck t.caller mv k
    next {t} (call mv) k = Stop-Stuck t.worker mv k

-- If `task_stop` is called while the task executes a job, and its sleep always works, then it
-- never returns: whatever the threads do next, it tests the flag or sleeps, since the thread of
-- the task leaves its loop without setting the flag again.
pub task_stop-in_job :
    {preferred : Bool} {s t : System}
    → Run (record { is_preferred = preferred; sleeps = true }) init s
    → s.caller ≡ idle
    → s.worker ≡ in_job
    → Run
        (record { is_preferred = preferred; sleeps = true })
        (record s { shared = record s.shared { stopped = true }; caller = testing })
        t
    → (t.caller ≡ testing) ⊎ (t.caller ≡ sleeping)
task_stop-in_job {t} r at job r' =
    let inv = Run-Inv r in
    is_waiting-cases t.caller (Run-Stuck r' (ground (arith, inv, at, job))).waits
