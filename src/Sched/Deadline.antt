-- ===== src/Sched/Deadline.antt =====
-- utility_sched_deadline.c
use realtime_tests.Prelude.{not, Option, ◌==◌, if◌then◌else◌}
use realtime_tests.Prelude.Int.{ℤ, pos, negsuc}
use realtime_tests.Time.{Timespec}
use realtime_tests.Sched.{
  Kernel, Scheduler, SchedParamEx, sched_deadline_policy, sched_save, sched_restore,
}
use realtime_tests.Sched.Fifo.{is_ok}

-- What is passed to the kernel for a budget and a deadline.
abbrev pub reservation : Timespec → Timespec → SchedParamEx
reservation wcet deadline = record {
  sched_runtime = wcet;
  sched_deadline = deadline;
  sched_period = deadline;
  sched_flags = 0;
}

module _ (k : Kernel) where
  open k use {State, eperm, setscheduler_ex}

  unfoldable pub sched_deadline_enter :
      Timespec → Timespec → Option Scheduler → State → ℤ × Option Scheduler × State
  sched_deadline_enter wcet deadline old w =
      let (rc, old') = sched_save k old w in
      let (e, w') = setscheduler_ex sched_deadline_policy (reservation wcet deadline) w in
      if not (is_ok rc)
      then (negsuc 1, old', w)
      else if not (e == 0)
      then if e == eperm then (negsuc 0, old', w') else (negsuc 1, old', w')
      else (pos 0, old', w')

  unfoldable pub sched_deadline_leave : Scheduler → State → ℤ × State
  sched_deadline_leave sched w = sched_restore k sched w
