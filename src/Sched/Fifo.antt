-- ===== src/Sched/Fifo.antt =====
-- utility_sched_fifo.c
use realtime_tests.Prelude.{
  ℕ, ◌-◌, Bool, false, not, Option, none, some, ◌==◌, if◌then◌else◌, sub_int, lt_int, int_mod,
}
use realtime_tests.Prelude.Int.{ℤ, pos, negsuc}
use realtime_tests.Sched.{Kernel, Scheduler, sched_save, sched_restore}

-- An `int` is its bit pattern here; -1 is the last one.
abbrev pub minus_one : ℕ
minus_one = int_mod - 1

abbrev pub is_ok : ℤ → Bool
is_ok (pos n) = n == 0
is_ok (negsuc n) = false

module _ (k : Kernel) where
  open k use {State, sched_fifo, eperm, setschedparam, get_priority_max, get_priority_min}

  unfoldable pub sched_fifo_enter : ℕ → Option Scheduler → State → ℤ × Option Scheduler × State
  sched_fifo_enter prio old w =
      let (rc, old') = sched_save k old w in
      let (e, w') = setschedparam sched_fifo prio w in
      if not (is_ok rc)
      then (negsuc 1, old', w)
      else if not (e == 0)
      then if e == eperm then (negsuc 0, old', w') else (negsuc 1, old', w')
      else (pos 0, old', w')

  -- The result code, and what is stored if anything. The level is `unsigned`, and so is the
  -- difference.
  unfoldable pub sched_fifo_prio : ℕ → State → ℤ × Option ℕ
  unfolding sub_int lt_int
  sched_fifo_prio nth_level w =
      let max_prio = get_priority_max w in
      let min_prio = get_priority_min w in
      let actual_prio = sub_int max_prio nth_level in
      if max_prio == minus_one
      then (negsuc 1, none)
      else if min_prio == minus_one
      then (negsuc 1, none)
      else if lt_int actual_prio min_prio
      then (negsuc 0, none)
      else (pos 0, some actual_prio)

  abbrev pub enter_at : Option Scheduler → State → ℤ × Option ℕ → ℤ × Option Scheduler × State
  enter_at old w (pos n, some max_prio) = sched_fifo_enter max_prio old w
  enter_at old w (pos n, none) = (negsuc 1, old, w)
  enter_at old w (negsuc n, stored) = (negsuc 1, old, w)

  unfoldable pub sched_fifo_enter_max : Option Scheduler → State → ℤ × Option Scheduler × State
  unfolding sched_fifo_prio sched_fifo_enter
  sched_fifo_enter_max old w = enter_at old w (sched_fifo_prio 0 w)

  unfoldable pub sched_fifo_leave : Scheduler → State → ℤ × State
  sched_fifo_leave sched w = sched_restore k sched w
