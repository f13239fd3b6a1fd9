-- ===== src/Sched.antt =====
-- utility_sched.c, utility_sched_fifo.c, utility_sched_deadline.c: the scheduler of a thread,
-- saved, changed and restored.
pub mod Fifo
pub mod Deadline
pub mod Restored
pub mod Plain
mod Examples
use realtime_tests.Prelude.{ℕ, Bool, true, false, not, Option, none, some, ◌==◌, ◌≡◌, if◌then◌else◌}
use realtime_tests.Prelude.Int.{ℤ, pos, negsuc}
use realtime_tests.Time.{Timespec, timespec}

abbrev pub sched_deadline_policy : ℕ
sched_deadline_policy = 6

-- The members of `sched_param_ex` that the code sets.
pub record SchedParamEx : Type 0 where
  pub sched_runtime : Timespec
  pub sched_deadline : Timespec
  pub sched_period : Timespec
  pub sched_flags : ℕ

-- `struct scheduler`
pub record Scheduler : Type 0 where
  pub policy : ℕ
  pub param : ℕ
  pub param_ex : SchedParamEx

-- The calls that the code makes of the C library and the kernel, over the state of the kernel. A
-- number that is returned is an error number, 0 for success.
pub record Kernel : Type 1 where
  pub State : Type 0
  pub sched_fifo : ℕ
  pub eperm : ℕ
  -- What `pthread_getschedparam` stores, the policy and the priority.
  pub getschedparam : State → ℕ × ℕ × ℕ
  pub setschedparam : ℕ → ℕ → State → ℕ × State
  pub getparam_ex : State → Option SchedParamEx
  pub setscheduler_ex : ℕ → SchedParamEx → State → ℕ × State
  pub get_priority_max : State → ℕ
  pub get_priority_min : State → ℕ

module _ (k : Kernel) where
  open k use {State, getschedparam, setschedparam, getparam_ex, setscheduler_ex}

  -- `none` is a null pointer. What is stored before a failure stays stored.
  unfoldable pub sched_save : Option Scheduler → State → ℤ × Option Scheduler
  sched_save none w = (pos 0, none)
  sched_save (some old) w =
      let (e, policy, param) = getschedparam w in
      let old' : Scheduler = record old { policy = policy; param = param } in
      if not (e == 0)
      then (negsuc 0, some old)
      else if policy == sched_deadline_policy
      then elim (getparam_ex w) [
        | none ↦ (negsuc 0, some old')
        | some ex ↦ (pos 0, some (record old' { param_ex = ex }))
      ]
      else (pos 0, some old')

  unfoldable pub sched_restore : Scheduler → State → ℤ × State
  sched_restore sched w =
      let (e, w1) = setscheduler_ex sched_deadline_policy sched.param_ex w in
      let (e', w1') = setschedparam sched.policy sched.param w in
      if sched.policy == sched_deadline_policy
      then ((if not (e == 0) then negsuc 0 else pos 0), w1)
      else ((if not (e' == 0) then negsuc 0 else pos 0), w1')
