-- ===== src/Bwi/Driver/Collected.antt =====
-- bwi-client_server/main.c: that no process of the driver is left behind.
use realtime_tests.Prelude.{
  ℕ, zero, suc, ◌+◌, ◌*◌, ◌≡◌, refl, Bool, true, false, ◌&&◌, Option, none, some, List, [], ◌∷◌,
  ◌++◌, ◌==◌, if◌then◌else◌, length, Bool-cases, inl, inr, arith,
}
use realtime_tests.Bwi.Driver.{Driver}
use realtime_tests.Bwi.Driver.Life.{
  Signal, usr1, term, kill, Event, is_parent, reaped, signalled, Pids, procs_create, create_if,
  create_processes, procs_kill, procs_wait, procs_kill_and_wait, terminate_driver, start_processes,
  stop_processes, collect_processes, run_processes, drive,
}

unfoldable pub sum : (Event → ℕ) → List Event → ℕ
sum f [] = 0
sum f (e ∷ es) = f e + sum f es

-- How often a process is waited for, and told to terminate.
abbrev pub is_reaped : ℕ → Event → ℕ
is_reaped p (reaped q) = if p == q then 1 else 0
is_reaped p _ = 0

abbrev pub is_ended : ℕ → Event → ℕ
is_ended p (signalled term q) = if p == q then 1 else 0
is_ended p (signalled kill q) = if p == q then 1 else 0
is_ended p _ = 0

sum-append : (f : Event → ℕ) (xs ys : List Event) → sum f (xs ++ ys) ≡ sum f xs + sum f ys
unfolding sum
sum-append f [] ys = omega arith
sum-append f (x ∷ xs) ys = omega (arith, sum-append f xs ys)

unfoldable count : ℕ → List ℕ → ℕ
count p [] = 0
count p (q ∷ qs) = (if p == q then 1 else 0) + count p qs

-- How often `fork` answers with a process.
unfoldable pub forked : ℕ → List (Option ℕ) → ℕ
forked p [] = 0
forked p (none ∷ forks) = forked p forks
forked p (some q ∷ forks) = (if p == q then 1 else 0) + forked p forks

procs_create-forked :
    (p n : ℕ) (forks : List (Option ℕ))
    → is_parent forks ≡ true
    → (forked p forks ≡ count p (procs_create n forks).1 + forked p (procs_create n forks).2)
      × (is_parent (procs_create n forks).2 ≡ true)
unfolding procs_create forked count is_parent
procs_create-forked p zero forks h = (omega arith, h)
procs_create-forked p (suc n) [] h = (refl, refl)
procs_create-forked p (suc n) (none ∷ forks) h = (omega arith, h)
procs_create-forked p (suc n) (some pid ∷ forks) h =
    let (later, parent) = procs_create-forked p n forks (ground arith) in
    elim (Bool-cases (pid == 0)) [
      | inl child ↦ absurd (ground arith)
      | inr own ↦ rw own (omega (arith, later), parent)
    ]

create_if-forked :
    (p : ℕ) (ok : Bool) (n : ℕ) (forks : List (Option ℕ))
    → is_parent forks ≡ true
    → (forked p forks ≡ count p (create_if ok n forks).1 + forked p (create_if ok n forks).2)
      × (is_parent (create_if ok n forks).2 ≡ true)
unfolding count
create_if-forked p true n forks h = procs_create-forked p n forks h
create_if-forked p false n forks h = (omega arith, h)

module _ (signals : Signal → ℕ → Bool) where
  waits_lem :
      (p : ℕ) (qs : List ℕ)
      → (sum (is_reaped p) (procs_wait signals qs) ≡ count p qs)
        × (sum (is_ended p) (procs_wait signals qs) ≡ 0)
  unfolding sum count procs_wait
  waits_lem p [] = (refl, refl)
  waits_lem p (q ∷ qs) = let (r, e) = waits_lem p qs in (omega (arith, r), omega (arith, e))

  usr1_lem :
      (p : ℕ) (qs : List ℕ)
      → (sum (is_reaped p) (procs_kill signals usr1 qs) ≡ 0)
        × (sum (is_ended p) (procs_kill signals usr1 qs) ≡ 0)
  unfolding sum procs_kill
  usr1_lem p [] = (refl, refl)
  usr1_lem p (q ∷ qs) = let (r, e) = usr1_lem p qs in (ground (arith, r), ground (arith, e))

  term_lem :
      (p : ℕ) (qs : List ℕ)
      → ((q : ℕ) → signals term q ≡ true)
      → (sum (is_reaped p) (procs_kill signals term qs) ≡ 0)
        × (sum (is_ended p) (procs_kill signals term qs) ≡ count p qs)
  unfolding sum count procs_kill
  term_lem p [] works = (refl, refl)
  term_lem p (q ∷ qs) works =
      let (r, e) = term_lem p qs works in rw (works q) (omega (arith, r), omega (arith, e))

  kill_lem :
      (p : ℕ) (qs : List ℕ)
      → ((q : ℕ) → signals kill q ≡ true)
      → (sum (is_reaped p) (procs_kill_and_wait signals qs) ≡ count p qs)
        × (sum (is_ended p) (procs_kill_and_wait signals qs) ≡ count p qs)
  unfolding sum count procs_kill_and_wait
  kill_lem p [] works = (refl, refl)
  kill_lem p (q ∷ qs) works =
      let (r, e) = kill_lem p qs works in rw (works q) (omega (arith, r), omega (arith, e))

  abbrev total : ℕ → Pids → ℕ
  total p pids =
      count p pids.servers
      + count p pids.clients
      + count p pids.hrts
      + count p pids.chunks
      + count p pids.hogs
      + count p pids.server_hogs

  -- A phase that treats the six lists alike, with `k` events of a kind for each process.
  six_lists :
      (f : Event → ℕ) (phase : List ℕ → List Event) (p k : ℕ)
      → ((qs : List ℕ) → sum f (phase qs) ≡ k * count p qs)
      → (a b c d e g : List ℕ)
      → sum f (phase a ++ (phase b ++ (phase c ++ (phase d ++ (phase e ++ phase g)))))
        ≡ k * (count p a + count p b + count p c + count p d + count p e + count p g)
  six_lists f phase p k h a b c d e g = grind (arith, sum-append f, h a, h b, h c, h d, h e, h g)

  three_lists :
      (f : Event → ℕ) (phase : List ℕ → List Event) (a b c : List ℕ)
      → ((qs : List ℕ) → sum f (phase qs) ≡ 0)
      → sum f (phase a ++ (phase b ++ phase c)) ≡ 0
  three_lists f phase a b c h = grind (arith, sum-append f, h a, h b, h c)

  -- In a run that ends well, and in one that is broken off.
  kept_run :
      (f : Event → ℕ) (p j l : ℕ) (pids : Pids)
      → ((qs : List ℕ) → sum f (procs_kill signals usr1 qs) ≡ 0)
      → ((qs : List ℕ) → sum f (procs_kill signals term qs) ≡ j * count p qs)
      → ((qs : List ℕ) → sum f (procs_wait signals qs) ≡ l * count p qs)
      → sum f (
          start_processes signals pids
          ++ (stop_processes signals pids ++ collect_processes signals pids))
        ≡ j * total p pids + l * total p pids
  kept_run f p j l pids starts stops waits =
      let b = three_lists f (procs_kill signals usr1) pids.hrts pids.chunks pids.clients starts in
      let c =
        six_lists f (procs_kill signals term) p j stops pids.clients pids.chunks pids.hrts pids.hogs
          pids.server_hogs pids.servers in
      let d =
        six_lists f (procs_wait signals) p l waits pids.clients pids.chunks pids.hrts pids.hogs
          pids.server_hogs pids.servers in
      let stopped = stop_processes signals pids ++ collect_processes signals pids in
      grind (
        arith,
        b,
        c,
        d,
        sum-append f (start_processes signals pids) stopped,
        sum-append f (stop_processes signals pids) (collect_processes signals pids),
      )

  broken_run :
      (f : Event → ℕ) (p j : ℕ) (pids : Pids)
      → ((qs : List ℕ) → sum f (procs_kill_and_wait signals qs) ≡ j * count p qs)
      → sum f (terminate_driver signals pids) ≡ j * total p pids
  unfolding terminate_driver
  broken_run f p j pids ends = grind (
    arith,
    six_lists f (procs_kill_and_wait signals) p j ends pids.servers pids.clients pids.hogs
        pids.chunks pids.hrts pids.server_hogs,
  )

  -- Once for each process in every run, with the equations at a literal.
  run_lem :
      (p : ℕ) (enters ok : Bool) (pids : Pids) (rest : List (Option ℕ))
      → ((q : ℕ) → signals term q ≡ true)
      → ((q : ℕ) → signals kill q ≡ true)
      → (sum (is_reaped p) (run_processes signals enters (ok, pids, rest)).1 ≡ total p pids)
        × (sum (is_ended p) (run_processes signals enters (ok, pids, rest)).1 ≡ total p pids)
        × ((run_processes signals enters (ok, pids, rest)).2 ≡ rest)
  run_lem p enters ok pids rest terms works = elim (Bool-cases (ok && enters)) [
    | inl well ↦ rw well (
      omega (
        arith,
        kept_run (is_reaped p) p 0 1 pids (λ qs. (usr1_lem p qs).0)
            (λ qs. omega (arith, (term_lem p qs terms).0))
            (λ qs. omega (arith, (waits_lem p qs).0)),
      ),
      omega (
        arith,
        kept_run (is_ended p) p 1 0 pids (λ qs. (usr1_lem p qs).1)
            (λ qs. omega (arith, (term_lem p qs terms).1))
            (λ qs. omega (arith, (waits_lem p qs).1)),
      ),
      refl,
    )
    | inr broken ↦ rw broken (
      omega
          (arith, broken_run (is_reaped p) p 1 pids (λ qs. omega (arith, (kill_lem p qs works).0))),
      omega
          (arith, broken_run (is_ended p) p 1 pids (λ qs. omega (arith, (kill_lem p qs works).1))),
      refl,
    )
  ]

  -- The processes in the lists are those that `fork` answered.
  create_processes-forked :
      (p : ℕ) (d : Driver) (client_argv : Bool) (forks : List (Option ℕ))
      → is_parent forks ≡ true
      → forked p forks
        ≡ total p (create_processes d client_argv forks).1
          + forked p (create_processes d client_argv forks).2
  unfolding create_processes
  create_processes-forked p d client_argv forks parent =
      let (ok1, servers, forks1) = create_if true (length d.server_procs) forks in
      let (ok2, clients, forks2) = create_if (ok1 && client_argv) (length d.client_procs) forks1 in
      let (ok3, hrts, forks3) = create_if ok2 (length d.hrt_cbs_procs) forks2 in
      let (ok4, chunks, forks4) = create_if ok3 (length d.cpu_hog_cbs_procs) forks3 in
      let (ok5, hogs, forks5) = create_if ok4 (length d.cpu_hog_procs) forks4 in
      let (f1, p1) = create_if-forked p true (length d.server_procs) forks parent in
      let (f2, p2) = create_if-forked p (ok1 && client_argv) (length d.client_procs) forks1 p1 in
      let (f3, p3) = create_if-forked p ok2 (length d.hrt_cbs_procs) forks2 p2 in
      let (f4, p4) = create_if-forked p ok3 (length d.cpu_hog_cbs_procs) forks3 p3 in
      let (f5, p5) = create_if-forked p ok4 (length d.cpu_hog_procs) forks4 p4 in
      let (f6, p6) = create_if-forked p ok5 (length d.server_hog_procs) forks5 p5 in
      omega (arith, f1, f2, f3, f4, f5, f6)

  procs_create-length :
      (n : ℕ) (forks : List (Option ℕ))
      → (procs_create n forks).0 ≡ true
      → length (procs_create n forks).1 ≡ n
  unfolding procs_create
  procs_create-length zero forks h = refl
  procs_create-length (suc n) [] h = absurd (ground arith)
  procs_create-length (suc n) (none ∷ forks) h = absurd (ground arith)
  procs_create-length (suc n) (some pid ∷ forks) h = ground (arith, procs_create-length n forks)

  -- Whatever the configuration, and whatever succeeds or fails while the processes are created:
  -- in the driver itself, and if SIGTERM and SIGKILL can always be sent, each PID is told to
  -- terminate, by one of these two signals, and waited for, as often as it is among the answers of
  -- fork, without those that the driver has left for later calls.
  pub drive_collects :
      (d : Driver) (client_argv enters : Bool) (forks : List (Option ℕ)) (p : ℕ)
      → is_parent forks ≡ true
      → ((q : ℕ) → signals term q ≡ true)
      → ((q : ℕ) → signals kill q ≡ true)
      → (forked p forks
          ≡ sum (is_reaped p) (drive signals d client_argv enters forks).1
            + forked p (drive signals d client_argv enters forks).2)
        × (forked p forks
            ≡ sum (is_ended p) (drive signals d client_argv enters forks).1
              + forked p (drive signals d client_argv enters forks).2)
  unfolding drive
  drive_collects d client_argv enters forks p parent terms works =
      let (ok, pids, rest) = create_processes d client_argv forks in
      let (r, e, left) = run_lem p enters ok pids rest terms works in
      let made = create_processes-forked p d client_argv forks parent in
      rw (r, e, left) (made, made)

  create_if-length :
      (ok : Bool) (n : ℕ) (forks : List (Option ℕ))
      → (create_if ok n forks).0 ≡ true
      → (ok ≡ true) × (length (create_if ok n forks).1 ≡ n)
  create_if-length true n forks h = (refl, procs_create-length n forks h)
  create_if-length false n forks h = absurd (ground arith)

  -- The driver returns EXIT_SUCCESS only if it has created every process of its configuration.
  pub drive_succeeds :
      (d : Driver) (client_argv enters : Bool) (forks : List (Option ℕ))
      → (drive signals d client_argv enters forks).0 ≡ true
      → (length (create_processes d client_argv forks).1.servers ≡ length d.server_procs)
        × (length (create_processes d client_argv forks).1.clients ≡ length d.client_procs)
        × (length (create_processes d client_argv forks).1.hrts ≡ length d.hrt_cbs_procs)
        × (length (create_processes d client_argv forks).1.chunks ≡ length d.cpu_hog_cbs_procs)
        × (length (create_processes d client_argv forks).1.hogs ≡ length d.cpu_hog_procs)
        × (length (create_processes d client_argv forks).1.server_hogs ≡ length d.server_hog_procs)
  unfolding drive create_processes
  drive_succeeds d client_argv enters forks h =
      let (ok1, servers, forks1) = create_if true (length d.server_procs) forks in
      let (ok2, clients, forks2) = create_if (ok1 && client_argv) (length d.client_procs) forks1 in
      let (ok3, hrts, forks3) = create_if ok2 (length d.hrt_cbs_procs) forks2 in
      let (ok4, chunks, forks4) = create_if ok3 (length d.cpu_hog_cbs_procs) forks3 in
      let (ok5, hogs, forks5) = create_if ok4 (length d.cpu_hog_procs) forks4 in
      let (g6, n6) = create_if-length ok5 (length d.server_hog_procs) forks5 (ground arith) in
      let (g5, n5) = create_if-length ok4 (length d.cpu_hog_procs) forks4 g6 in
      let (g4, n4) = create_if-length ok3 (length d.cpu_hog_cbs_procs) forks3 g5 in
      let (g3, n3) = create_if-length ok2 (length d.hrt_cbs_procs) forks2 g4 in
      let (g2, n2) = create_if-length (ok1 && client_argv) (length d.client_procs) forks1 g3 in
      let (g1, n1) = create_if-length true (length d.server_procs) forks (ground (arith, g2)) in
      (n1, n2, n3, n4, n5, n6)
