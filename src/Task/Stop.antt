-- ===== src/Task/Stop.antt =====
-- task.c: `task_stop` and the release loop of an aperiodic task, interleaved, an access to a shared
-- member at a time.
use realtime_tests.Prelude.{ℕ, suc, ◌≡◌, Bool, true, false, not, ◌&&◌, if◌then◌else◌}

-- The members of `task` that both threads access, and whether the thread has a request to cancel.
-- Nothing reads `late_jobs`: it counts the jobs that are started when `stopped` is set.
pub record Shared : Type 0 where
  pub stopped : Bool
  pub inside_aperiodic_release : Bool
  pub cancelled : Bool
  pub late_jobs : ℕ

-- Where the thread of the task stands.
pub data Worker : Type 0 where
  entering : Worker  -- head of the loop
  waiting : Worker  -- in `aperiodic_release`
  released : Worker  -- `aperiodic_release` has returned
  in_job : Worker  -- in `job_start`
  left : Worker  -- behind the loop
  killed : Worker

-- Where the thread stands that is to call `task_stop`.
pub data Caller : Type 0 where
  idle : Caller  -- before the call
  testing : Caller  -- at the condition of the loop
  sleeping : Caller  -- in `clock_nanosleep`
  cancelling : Caller  -- before `pthread_cancel`
  returned : Caller

abbrev pub count_job : Bool → ℕ → ℕ
count_job stopped n = if stopped then suc n else n

-- The condition of the loop, once a job has ended.
abbrev pub after_job : Bool → Shared → Worker
after_job failed m = if not failed && not m.stopped then entering else left

abbrev pub after_test : Shared → Caller
after_test m = if m.inside_aperiodic_release then cancelling else sleeping

-- Where a request to cancel may take effect: in the wait for the event, or in the task program.
abbrev pub is_cancellable : Worker → Bool
is_cancellable waiting = true
is_cancellable in_job = true
is_cancellable _ = false

pub data Work (m : Shared) : Worker → Shared → Worker → Type 0 where
  enter : Work m entering (record m { inside_aperiodic_release = true }) waiting
  event : Work m waiting m released
  start_job :
      Work m released
        (record m { inside_aperiodic_release = false; late_jobs = count_job m.stopped m.late_jobs })
        in_job
  end_job : (failed : Bool) → Work m in_job m (after_job failed m)
  die : {w : Worker} → m.cancelled ≡ true → is_cancellable w ≡ true → Work m w m killed

-- `sleeps` tells that `clock_nanosleep` always works; `pthread_cancel` may fail.
pub data Stop (sleeps : Bool) (m : Shared) : Caller → Shared → Caller → Type 0 where
  stop : Stop sleeps m idle (record m { stopped = true }) testing
  test : Stop sleeps m testing m (after_test m)
  wake : Stop sleeps m sleeping m testing
  sleep_failed : sleeps ≡ false → Stop sleeps m sleeping m cancelling
  cancel : Stop sleeps m cancelling (record m { cancelled = true }) returned
  cancel_failed : Stop sleeps m cancelling m returned

-- While it runs in `task_stop`.
abbrev pub is_running : Caller → Bool
is_running testing = true
is_running cancelling = true
is_running _ = false

-- `is_preferred` is the assumption of the source: the thread of the task cannot preempt the caller.
pub record Platform : Type 0 where
  pub is_preferred : Bool
  pub sleeps : Bool

pub record System : Type 0 where
  pub shared : Shared
  pub worker : Worker
  pub caller : Caller

pub data Step (p : Platform) (s : System) : System → Type 0 where
  work :
      {m : Shared} {w : Worker}
      → (p.is_preferred && is_running s.caller) ≡ false
      → Work s.shared s.worker m w
      → Step p s (record s { shared = m; worker = w })
  call :
      {m : Shared} {c : Caller}
      → Stop p.sleeps s.shared s.caller m c
      → Step p s (record s { shared = m; caller = c })

-- What `task_create` has set when the loop starts.
abbrev pub init : System
init = record {
  shared = record {
    stopped = false;
    inside_aperiodic_release = false;
    cancelled = false;
    late_jobs = 0;
  };
  worker = entering;
  caller = idle;
}

pub data Run (p : Platform) (s : System) : System → Type 0 where
  start : Run p s s
  later : {t u : System} → Run p s t → Step p t u → Run p s u
