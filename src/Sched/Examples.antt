-- ===== src/Sched/Examples.antt =====
-- The schedulers on a kernel with one thread.
use realtime_tests.Prelude.{◌≡◌, refl, some, arith}
use realtime_tests.Prelude.Int.{pos}
use realtime_tests.Sched.{sched_save, sched_restore}
use realtime_tests.Sched.Fifo.{sched_fifo_enter, sched_fifo_prio, sched_fifo_leave}
use realtime_tests.Sched.Restored.{Runs, sched_fifo_enter-leave, sched_fifo_prio_lem}
use realtime_tests.Sched.Plain.{plain, plain-IsFaithful, normal}

sched_fifo_enter-leave_example :
    Runs plain normal normal
    × (plain.getschedparam (record normal { policy = 1; param = 42 }) ≡ (0, 1, 42))
    × Runs plain normal normal
unfolding sched_save sched_restore sched_fifo_enter sched_fifo_leave
sched_fifo_enter-leave_example =
    sched_fifo_enter-leave plain 42 normal normal normal (record normal { policy = 1; param = 42 })
      (record normal { policy = 1; param = 42 }) normal plain-IsFaithful refl refl

sched_fifo_prio_lem_example : sched_fifo_prio plain 3 normal ≡ (pos 0, some 96)
sched_fifo_prio_lem_example =
    sched_fifo_prio_lem plain 3 normal (omega arith) (omega arith) (omega arith)
