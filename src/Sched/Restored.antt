-- ===== src/Sched/Restored.antt =====
-- utility_sched.c and its two clients: what entering and leaving a scheduler does to the thread.
use realtime_tests.Prelude.{
  ℕ, ◌+◌, ◌-◌, ◌<◌, ◌≤◌, ◌≡◌, ◌≢◌, none, some, leb, if◌then◌else◌, int_half, int_mod, sub_int,
  lt_int, arith,
}
use realtime_tests.Prelude.Int.{pos, negsuc}
use realtime_tests.Time.{Timespec}
use realtime_tests.Sched.{
  Kernel, Scheduler, SchedParamEx, sched_deadline_policy, sched_save, sched_restore,
}
use realtime_tests.Sched.Fifo.{sched_fifo_enter, sched_fifo_prio, sched_fifo_leave}
use realtime_tests.Sched.Deadline.{sched_deadline_enter, sched_deadline_leave, reservation}

-- What POSIX and the patch of SCHED_DEADLINE document: parameters that were set are got back.
pub record IsFaithful (k : Kernel) : Type 0 where
  pub two_policies : k.sched_fifo ≢ sched_deadline_policy
  pub got_param :
      (policy param : ℕ) (w : k.State)
      → policy ≢ sched_deadline_policy
      → (k.setschedparam policy param w).0 ≡ 0
      → k.getschedparam (k.setschedparam policy param w).1 ≡ (0, policy, param)
  pub got_policy :
      (ex : SchedParamEx) (w : k.State)
      → (k.setscheduler_ex sched_deadline_policy ex w).0 ≡ 0
      → ((k.getschedparam (k.setscheduler_ex sched_deadline_policy ex w).1).0 ≡ 0)
        × ((k.getschedparam (k.setscheduler_ex sched_deadline_policy ex w).1).1
            ≡ sched_deadline_policy)
  pub got_ex :
      (ex : SchedParamEx) (w : k.State)
      → (k.setscheduler_ex sched_deadline_policy ex w).0 ≡ 0
      → k.getparam_ex (k.setscheduler_ex sched_deadline_policy ex w).1 ≡ some ex

module _ (k : Kernel) where
  open k use {
    State, sched_fifo, eperm, getschedparam, setschedparam, getparam_ex, setscheduler_ex,
    get_priority_max, get_priority_min,
  }

  -- The kernel runs the thread by a scheduler object, as far as its policy uses the parameters.
  pub record Runs (sched : Scheduler) (w : State) : Type 0 where
    pub known : (getschedparam w).0 ≡ 0
    pub policy : (getschedparam w).1 ≡ sched.policy
    pub param : sched.policy ≢ sched_deadline_policy → (getschedparam w).2 ≡ sched.param
    pub param_ex : sched.policy ≡ sched_deadline_policy → getparam_ex w ≡ some sched.param_ex

  sched_save-Runs :
      (old saved : Scheduler) (w : State)
      → sched_save k (some old) w ≡ (pos 0, some saved)
      → Runs saved w
  unfolding sched_save
  sched_save-Runs old saved w e = record {
    known = ground arith;
    policy = ground arith;
    param = λ other. ground arith;
    param_ex = λ deadline. ground arith;
  }

  sched_restore-Runs :
      (sched : Scheduler) (w w' : State)
      → IsFaithful k
      → sched_restore k sched w ≡ (pos 0, w')
      → Runs sched w'
  unfolding sched_restore
  sched_restore-Runs sched w w' f e = record {
    known = ground (arith, f.got_policy sched.param_ex w, f.got_param sched.policy sched.param w);
    policy = ground (arith, f.got_policy sched.param_ex w, f.got_param sched.policy sched.param w);
    param = λ other. ground (arith, f.got_param sched.policy sched.param w);
    param_ex = λ deadline. ground (arith, f.got_ex sched.param_ex w);
  }

  -- Where the library and the kernel give back the parameters that were set: if `sched_fifo_enter`
  -- succeeds, the object holds the scheduler that the thread had, and the thread runs under
  -- SCHED_FIFO at the priority asked for; whenever `sched_fifo_leave` then succeeds, from
  -- any state, the thread has its old scheduler again.
  pub sched_fifo_enter-leave :
      (prio : ℕ) (old saved : Scheduler) (w w' v v' : State)
      → IsFaithful k
      → sched_fifo_enter k prio (some old) w ≡ (pos 0, some saved, w')
      → sched_fifo_leave k saved v ≡ (pos 0, v')
      → Runs saved w × (getschedparam w' ≡ (0, sched_fifo, prio)) × Runs saved v'
  unfolding sched_fifo_enter sched_fifo_leave
  sched_fifo_enter-leave prio old saved w w' v v' f e left = (
    sched_save-Runs old saved w (ground arith),
    ground (arith, f.got_param sched_fifo prio w f.two_policies),
    sched_restore-Runs saved v v' f left,
  )

  -- Where the library and the kernel give back the parameters that were set: if
  -- `sched_deadline_enter` succeeds, the object holds the scheduler that the thread had, and the
  -- thread has the budget reserved in every deadline; whenever `sched_deadline_leave` then
  -- succeeds, from any state, the thread has its old scheduler again.
  pub sched_deadline_enter-leave :
      (wcet deadline : Timespec) (old saved : Scheduler) (w w' v v' : State)
      → IsFaithful k
      → sched_deadline_enter k wcet deadline (some old) w ≡ (pos 0, some saved, w')
      → sched_deadline_leave k saved v ≡ (pos 0, v')
      → Runs saved w × (getparam_ex w' ≡ some (reservation wcet deadline)) × Runs saved v'
  unfolding sched_deadline_enter sched_deadline_leave
  sched_deadline_enter-leave wcet deadline old saved w w' v v' f e left = (
    sched_save-Runs old saved w (ground arith),
    ground (arith, f.got_ex (reservation wcet deadline) w),
    sched_restore-Runs saved v v' f left,
  )

  -- For a range of non-negative priorities, a level inside the range is answered by the priority
  -- that is as far below the maximum, and a level up to 2^31 outside by -1. Beyond the maximum
  -- plus 2^31 the difference wraps round, and a priority above the maximum is answered with
  -- success.
  pub sched_fifo_prio_lem :
      (nth_level : ℕ) (w : State)
      → get_priority_min w ≤ get_priority_max w
      → get_priority_max w < int_half
      → nth_level < int_mod
      → (sched_fifo_prio k nth_level w ≡ (
          if leb nth_level (get_priority_max w - get_priority_min w)
          then (pos 0, some (get_priority_max w - nth_level))
          else if leb nth_level (get_priority_max w + int_half)
          then (negsuc 0, none)
          else (pos 0, some (get_priority_max w + (int_mod - nth_level)))))
  unfolding sched_fifo_prio sub_int lt_int
  sched_fifo_prio_lem nth_level w range small level = ground arith
