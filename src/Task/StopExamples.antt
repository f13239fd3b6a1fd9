-- ===== src/Task/StopExamples.antt =====
-- Concrete runs of `task_stop` beside an aperiodic task.
use realtime_tests.Prelude.{ℕ, ◌≤◌, ◌≡◌, refl, Bool, true, false, ◌⊎◌}
use realtime_tests.Task.Stop.{
  Worker, Caller, System, idle, returned, waiting, released, in_job, killed, testing, sleeping,
  cancelling, enter, event, start_job, end_job, die, stop, test, wake, cancel, Platform, System,
  work, call, init, Run, start, later,
}
use realtime_tests.Task.Stopped.{task_stop-waiting, one_late_job, task_stop-in_job}

abbrev preferred : Platform
preferred = record { is_preferred = true; sleeps = true }

abbrev state : (stopped inside asked : Bool) → ℕ → Worker → Caller → System
state stopped inside asked n w c = record {
  shared = record {
    stopped = stopped;
    inside_aperiodic_release = inside;
    cancelled = asked;
    late_jobs = n;
  };
  worker = w;
  caller = c;
}

-- The task waits for its event.
waits : Run preferred init (state false true false 0 waiting idle)
waits = later start (work refl enter)

-- `task_stop` is called when the event has come.
late_call : Run preferred init (state true true false 0 released cancelling)
late_call = later (later (later waits (work refl event)) (call stop)) (call test)

late_job : Run preferred init (state true false true 1 in_job returned)
late_job = later (later late_call (call cancel)) (work refl start_job)

-- The job that the task then starts can be killed.
killed_job : Run preferred init (state true false true 1 killed returned)
killed_job = later late_job (work refl (die refl refl))

task_stop-waiting_example : (waiting ≡ waiting) ⊎ (waiting ≡ released)
task_stop-waiting_example =
    task_stop-waiting refl refl (later (later waits (call stop)) (call test)) refl

one_late_job_example : 1 ≤ 1
one_late_job_example = one_late_job late_job

job_begun : Run preferred init (state false false false 0 in_job idle)
job_begun = later (later waits (work refl event)) (work refl start_job)

task_stop-in_job_example : (testing ≡ testing) ⊎ (testing ≡ sleeping)
task_stop-in_job_example =
    task_stop-in_job job_begun refl refl
      (later (later (later start (call test)) (work refl (end_job false))) (call wake))
