-- ===== src/Bwi/Examples.antt =====
-- The server on a concrete subserver, and on a kernel with one thread.
use realtime_tests.Prelude.{
  ℕ, ◌+◌, ◌≡◌, refl, Bool, true, false, some, none, List, [], ◌∷◌, length, arith,
}
use realtime_tests.Sched.{Scheduler, sched_save, sched_restore}
use realtime_tests.Sched.Fifo.{
  sched_fifo_enter, sched_fifo_prio, sched_fifo_enter_max, sched_fifo_leave,
}
use realtime_tests.Sched.Restored.{Runs}
use realtime_tests.Sched.Plain.{plain, plain-IsFaithful, normal}
use realtime_tests.Bwi.{Io, done, error}
use realtime_tests.Bwi.Server.{serve}
use realtime_tests.Bwi.Answers.{serve_lem}
use realtime_tests.Bwi.Signals.{Signalled, tell_subserver, sigusr1}
use realtime_tests.Bwi.Toggled.{sigusr1-twice}

-- A world that counts what is done. The subserver takes every request, and never answers in time.
abbrev send : List ℕ → ℕ → Io ℕ × ℕ
send bytes w = (done (length bytes), w + 1)

abbrev recv : ℕ → ℕ → Io (List ℕ) × ℕ
recv n w = (error 11, w + 1)

abbrev bwi : ℕ → Bool × ℕ
bwi w = (true, w + 1)

abbrev step : ℕ → ℕ
step w = w + 1

abbrev request : List ℕ
request = b'a' ∷ b'b' ∷ []

serve_lem_example :
    ((serve 4 send recv bwi step step none request 0).0 ≡ some request)
    × ((has_pid : Bool)
        → (serve 4 send recv bwi step step (some has_pid) request 0).0 ≡ some (0 ∷ 0 ∷ []))
serve_lem_example = serve_lem 4 send recv bwi step step request 0 (omega arith)

-- The subserver is told, and follows at once.
abbrev tell : Scheduler → Bool × Scheduler
tell w = (true, w)

abbrev is_fifo : Scheduler → Bool × Scheduler
is_fifo w = (true, w)

abbrev fifo : Scheduler
fifo = record normal { policy = 1; param = 99 }

abbrev before : Signalled plain
before = record { old_scheduler_set = false; old_scheduler = normal; kernel = normal }

abbrev between : Signalled plain
between = record { old_scheduler_set = true; old_scheduler = normal; kernel = fifo }

sigusr1-twice_example :
    ((w : Scheduler) × (tell_subserver plain tell is_fifo false true normal ≡ some w)
      × Runs plain normal w)
    × ((plain.getschedparam fifo).1 ≡ 1)
    × Runs plain normal normal
unfolding sigusr1 tell_subserver sched_save sched_restore sched_fifo_enter_max sched_fifo_enter
    sched_fifo_prio sched_fifo_leave
sigusr1-twice_example =
    sigusr1-twice plain tell is_fifo false before between before fifo plain-IsFaithful refl refl
      refl refl refl
