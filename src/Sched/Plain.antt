-- ===== src/Sched/Plain.antt =====
-- A kernel with one thread, for the tests.
use realtime_tests.Prelude.{refl, some, arith}
use realtime_tests.Time.{timespec}
use realtime_tests.Sched.{Kernel, Scheduler, SchedParamEx}
use realtime_tests.Sched.Deadline.{reservation}
use realtime_tests.Sched.Restored.{IsFaithful}

-- It keeps the scheduler of its thread, and refuses nothing.
abbrev pub plain : Kernel
plain = record {
  State = Scheduler;
  sched_fifo = 1;
  eperm = 1;
  getschedparam = λ w. (0, w.policy, w.param);
  setschedparam = λ policy param w. (0, record w { policy = policy; param = param });
  getparam_ex = λ w. some w.param_ex;
  setscheduler_ex = λ policy ex w. (0, record w { policy = policy; param_ex = ex });
  get_priority_max = λ w. 99;
  get_priority_min = λ w. 1;
}

pub plain-IsFaithful : IsFaithful plain
plain-IsFaithful = record {
  two_policies = omega arith;
  got_param = λ policy param w other e. refl;
  got_policy = λ ex w e. (refl, refl);
  got_ex = λ ex w e. refl;
}

abbrev pub nothing_ex : SchedParamEx
nothing_ex = reservation (timespec 0 0) (timespec 0 0)

abbrev pub normal : Scheduler
normal = record { policy = 0; param = 0; param_ex = nothing_ex }
