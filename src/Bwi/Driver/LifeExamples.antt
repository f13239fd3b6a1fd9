-- ===== src/Bwi/Driver/LifeExamples.antt =====
-- The processes of a driver whose second fork fails.
use realtime_tests.Prelude.{ℕ, ◌+◌, ◌≡◌, refl, true, Option, some, none, List, [], ◌∷◌}
use realtime_tests.Bwi.Driver.{Driver, proc_new, no_procs}
use realtime_tests.Bwi.Driver.Life.{
  Event, reaped, signalled, kill, is_parent, procs_create, create_processes, procs_kill_and_wait,
  terminate_driver, drive,
}
use realtime_tests.Bwi.Driver.Collected.{sum, is_reaped, is_ended, forked, drive_collects}

abbrev two_procs : Driver
two_procs = record no_procs { server_procs = proc_new ∷ []; client_procs = proc_new ∷ [] }

abbrev forks : List (Option ℕ)
forks = some 10 ∷ none ∷ some 20 ∷ []

abbrev events : List Event
events = (drive (λ s q. true) two_procs true true forks).1

killed : events ≡ signalled kill 10 ∷ reaped 10 ∷ []
unfolding drive create_processes procs_create terminate_driver procs_kill_and_wait
killed = refl

-- In a child that cannot execute its program, the server that was created before it is killed, and
-- then the whole process group, by the PID 0.
child_kills :
    (drive (λ s q. true) two_procs true true (some 10 ∷ some 0 ∷ [])).1
    ≡ signalled kill 10 ∷ reaped 10 ∷ signalled kill 0 ∷ reaped 0 ∷ []
unfolding drive create_processes procs_create terminate_driver procs_kill_and_wait
child_kills = refl

drive_collects_example : (1 ≡ sum (is_reaped 10) events + 0) × (1 ≡ sum (is_ended 10) events + 0)
unfolding is_parent forked drive create_processes procs_create
drive_collects_example =
    drive_collects (λ s q. true) two_procs true true forks 10 refl (λ q. refl) (λ q. refl)
