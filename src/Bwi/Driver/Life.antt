-- ===== src/Bwi/Driver/Life.antt =====
-- bwi-client_server/main.c: the processes that the driver creates, signals and waits for.
use realtime_tests.Prelude.{
  ℕ, zero, suc, Bool, true, false, not, ◌&&◌, Option, none, some, List, [], ◌∷◌, ◌++◌, ◌==◌,
  if◌then◌else◌, length, map,
}
use realtime_tests.Bwi.Driver.{Driver}

pub data Signal : Type 0 where
  usr1 term kill : Signal

-- The signals that the driver sends with success and the processes that it waits for, in order; a
-- process is its PID.
pub data Event : Type 0 where
  reaped : ℕ → Event
  signalled : Signal → ℕ → Event

-- Whether it is the driver itself that goes on behind each call of `fork`.
unfoldable pub is_parent : List (Option ℕ) → Bool
is_parent [] = true
is_parent (none ∷ forks) = is_parent forks
is_parent (some pid ∷ forks) = not (pid == 0) && is_parent forks

-- The PIDs of each list, without those that are still -1.
pub record Pids : Type 0 where
  pub servers : List ℕ
  pub clients : List ℕ
  pub hrts : List ℕ
  pub chunks : List ℕ
  pub hogs : List ℕ
  pub server_hogs : List ℕ

-- `procs_create` for a list of so many processes. Of what `fork` answers in turn, `none` and the
-- end of the list are failures, and 0 is the child, where the program cannot be executed.
unfoldable pub procs_create : ℕ → List (Option ℕ) → Bool × List ℕ × List (Option ℕ)
procs_create zero forks = (true, [], forks)
procs_create (suc n) [] = (false, [], [])
procs_create (suc n) (none ∷ forks) = (false, [], forks)
procs_create (suc n) (some pid ∷ forks) =
    let (ok, pids, rest) = procs_create n forks in
    if pid == 0 then (false, 0 ∷ [], forks) else (ok, pid ∷ pids, rest)

abbrev pub create_if : Bool → ℕ → List (Option ℕ) → Bool × List ℕ × List (Option ℕ)
create_if ok n forks = let made = procs_create n forks in if ok then made else (false, [], forks)

-- The part that creates the processes, up to the first failure, and the answers of `fork` that it
-- leaves; `client_argv` is whether the arguments of the clients can be made, behind the servers.
unfoldable pub create_processes :
    Driver → (client_argv : Bool) → List (Option ℕ) → Bool × Pids × List (Option ℕ)
create_processes d client_argv forks =
    let (ok1, servers, forks1) = create_if true (length d.server_procs) forks in
    let (ok2, clients, forks2) = create_if (ok1 && client_argv) (length d.client_procs) forks1 in
    let (ok3, hrts, forks3) = create_if ok2 (length d.hrt_cbs_procs) forks2 in
    let (ok4, chunks, forks4) = create_if ok3 (length d.cpu_hog_cbs_procs) forks3 in
    let (ok5, hogs, forks5) = create_if ok4 (length d.cpu_hog_procs) forks4 in
    let (ok6, server_hogs, forks6) = create_if ok5 (length d.server_hog_procs) forks5 in
    (
      ok6,
      record {
        servers = servers;
        clients = clients;
        hrts = hrts;
        chunks = chunks;
        hogs = hogs;
        server_hogs = server_hogs;
      },
      forks6,
    )

-- `signals` is whether `kill` succeeds.
module _ (signals : Signal → ℕ → Bool) where
  unfoldable pub procs_kill : Signal → List ℕ → List Event
  procs_kill s [] = []
  procs_kill s (pid ∷ pids) =
      let rest = procs_kill s pids in if signals s pid then signalled s pid ∷ rest else rest

  -- Whether `procs_kill` returns 0.
  unfoldable pub kills : Signal → List ℕ → Bool
  kills s [] = true
  kills s (pid ∷ pids) = signals s pid && kills s pids

  unfoldable pub procs_wait : List ℕ → List Event
  procs_wait pids = map reaped pids

  unfoldable pub procs_kill_and_wait : List ℕ → List Event
  procs_kill_and_wait [] = []
  procs_kill_and_wait (pid ∷ pids) =
      let rest = procs_kill_and_wait pids in
      if signals kill pid then signalled kill pid ∷ reaped pid ∷ rest else rest

  unfoldable pub terminate_driver : Pids → List Event
  terminate_driver p =
      procs_kill_and_wait p.servers
      ++ (procs_kill_and_wait p.clients
          ++ (procs_kill_and_wait p.hogs
              ++ (procs_kill_and_wait p.chunks
                  ++ (procs_kill_and_wait p.hrts ++ procs_kill_and_wait p.server_hogs))))

  abbrev pub start_processes : Pids → List Event
  start_processes p =
      procs_kill usr1 p.hrts ++ (procs_kill usr1 p.chunks ++ procs_kill usr1 p.clients)

  abbrev pub stop_processes : Pids → List Event
  stop_processes p =
      procs_kill term p.clients
      ++ (procs_kill term p.chunks
          ++ (procs_kill term p.hrts
              ++ (procs_kill term p.hogs
                  ++ (procs_kill term p.server_hogs ++ procs_kill term p.servers))))

  abbrev pub collect_processes : Pids → List Event
  collect_processes p =
      procs_wait p.clients
      ++ (procs_wait p.chunks
          ++ (procs_wait p.hrts
              ++ (procs_wait p.hogs ++ (procs_wait p.server_hogs ++ procs_wait p.servers))))

  abbrev pub exit_code : Pids → Bool
  exit_code p =
      kills usr1 p.hrts
      && (kills usr1 p.chunks
          && (kills usr1 p.clients
              && (kills term p.clients
                  && (kills term p.chunks
                      && (kills term p.hrts
                          && (kills term p.hogs
                              && (kills term p.server_hogs && kills term p.servers)))))))

  -- `main` behind the configuration: whether it returns EXIT_SUCCESS, what it did, and the answers
  -- of `fork` that it left. `enters` is whether it gets SCHED_DEADLINE.
  abbrev pub run_processes :
      (enters : Bool) → Bool × Pids × List (Option ℕ) → Bool × List Event × List (Option ℕ)
  run_processes enters (ok, p, rest) =
      if ok && enters
      then (exit_code p, start_processes p ++ (stop_processes p ++ collect_processes p), rest)
      else (false, terminate_driver p, rest)

  unfoldable pub drive :
      Driver → (client_argv enters : Bool) → List (Option ℕ) → Bool × List Event × List (Option ℕ)
  drive d client_argv enters forks = run_processes enters (create_processes d client_argv forks)
