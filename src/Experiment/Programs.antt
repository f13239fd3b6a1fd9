-- ===== src/Experiment/Programs.antt =====
-- priority_inversion_in_RM/main.c: the programs of the three tasks, and how long they take.
use realtime_tests.Prelude.{
  ℕ, ◌+◌, ◌*◌, ◌-◌, ◌≤◌, ◌≡◌, refl, Bool, true, false, not, ◌&&◌, List, [], ◌∷◌, length,
  if◌then◌else◌, arith,
}
use realtime_tests.Time.{
  Timespec, TimeUnit, to_utility_time_fields, million, IsNormal, to_ns, minus,
}
use realtime_tests.Time.Exact.{minus_exact, to_utility_time_fields_exact}
use realtime_tests.Experiment.Multicore.{variable}

-- What a program does: it runs the busy loop of a duration in ms, or locks or unlocks R1.
pub data Work : Type 0 where
  busy : ℕ → Work
  locked unlocked : Work

-- Whether the mutex can be locked and unlocked; whether `exit_code` is 0 at the end.
unfoldable pub tau_1_prog : (locks unlocks : Bool) → Bool × List Work
tau_1_prog locks unlocks =
    if not locks
    then (false, busy 10 ∷ [])
    else if not unlocks
    then (false, busy 10 ∷ locked ∷ busy 10 ∷ [])
    else (true, busy 10 ∷ locked ∷ busy 10 ∷ unlocked ∷ busy 10 ∷ [])

unfoldable pub tau_2_prog : Bool × List Work
tau_2_prog = (true, busy 500 ∷ [])

unfoldable pub tau_3_prog : (locks unlocks : Bool) → Bool × List Work
tau_3_prog locks unlocks =
    if not locks
    then (false, busy 10 ∷ [])
    else if not unlocks
    then (false, busy 10 ∷ locked ∷ busy 30 ∷ [])
    else (true, busy 10 ∷ locked ∷ busy 30 ∷ unlocked ∷ busy 10 ∷ [])

-- The WCETs of the tasks, in ms.
abbrev pub wcet_1 : ℕ
wcet_1 = 30

abbrev pub wcet_2 : ℕ
wcet_2 = 500

abbrev pub wcet_3 : ℕ
wcet_3 = 50

-- The length of a busy loop: the overheads are taken from each.
unfoldable pub length_of : (job_stats_overhead task_overhead : Timespec) → ℕ → Timespec
length_of job_stats_overhead task_overhead duration =
    minus
      (variable (
        minus (variable (to_utility_time_fields duration TimeUnit.ms))
          (variable job_stats_overhead)))
      (variable task_overhead)

-- The nanoseconds that a program asks of its busy loops.
unfoldable pub asked_ns : (job_stats_overhead task_overhead : Timespec) → List Work → ℕ
asked_ns jo to [] = 0
asked_ns jo to (busy d ∷ ws) = to_ns (length_of jo to d) + asked_ns jo to ws
asked_ns jo to (locked ∷ ws) = asked_ns jo to ws
asked_ns jo to (unlocked ∷ ws) = asked_ns jo to ws

-- The nanoseconds that a program keeps the CPU busy, where a run of the busy loop of `d` ms that is
-- followed by `k` more parts of the program takes `takes k d`.
unfoldable pub busy_ns : (takes : ℕ → ℕ → ℕ) → List Work → ℕ
busy_ns takes [] = 0
busy_ns takes (busy d ∷ ws) = takes (length ws) d + busy_ns takes ws
busy_ns takes (locked ∷ ws) = busy_ns takes ws
busy_ns takes (unlocked ∷ ws) = busy_ns takes ws

-- The tolerance of the busy loops, 50 us, in ns.
abbrev pub busyloop_tolerance : ℕ
busyloop_tolerance = 50 * 1000

abbrev pub IsWithin : (tolerance expected found : ℕ) → Type 0
IsWithin tolerance expected found = (expected ≤ found + tolerance) × (found ≤ expected + tolerance)

-- Whether a program leaves the mutex locked.
unfoldable pub leaves_locked : Bool → List Work → Bool
leaves_locked held [] = held
leaves_locked held (busy d ∷ ws) = leaves_locked held ws
leaves_locked held (locked ∷ ws) = leaves_locked true ws
leaves_locked held (unlocked ∷ ws) = leaves_locked false ws

length_of_exact :
    (jo to : Timespec) (duration : ℕ)
    → IsNormal jo
    → IsNormal to
    → duration ≤ 500
    → to_ns (length_of jo to duration) ≡ duration * million - (to_ns jo + to_ns to)
unfolding length_of
length_of_exact jo to duration nj nt short =
    let (ms, nms) = to_utility_time_fields_exact duration TimeUnit.ms (omega arith) in
    let (first, nfirst) =
      minus_exact (variable (to_utility_time_fields duration TimeUnit.ms)) (variable jo) nms nj in
    let (second, nsecond) =
      minus_exact
        (variable (minus (variable (to_utility_time_fields duration TimeUnit.ms)) (variable jo)))
        (variable to) nfirst nt in
    omega (arith, ms, first, second)

-- Where the overheads are proper times of 10 ms at most together, and the mutex works: the
-- programs of the first and the third task ask for their WCET less three times the overheads, and
-- the program of the second one for its WCET less the overheads; and if each run of a busy loop
-- takes what was asked for up to 50 us, they keep the CPU busy for so long up to 150 us, 150 us
-- and 50 us. Whatever the mutex does, the first and the third one leave it locked exactly if they
-- have locked it and cannot unlock it, and succeed exactly if they can lock and unlock it; the
-- second one succeeds.
pub programs_lem :
    (jo to : Timespec) (takes : ℕ → ℕ → ℕ) (locks unlocks : Bool)
    → IsNormal jo
    → IsNormal to
    → to_ns jo + to_ns to ≤ 10 * million
    → ((k d : ℕ) → IsWithin busyloop_tolerance (to_ns (length_of jo to d)) (takes k d))
    → (asked_ns jo to (tau_1_prog true true).1 + 3 * (to_ns jo + to_ns to) ≡ wcet_1 * million)
      × (asked_ns jo to tau_2_prog.1 + (to_ns jo + to_ns to) ≡ wcet_2 * million)
      × (asked_ns jo to (tau_3_prog true true).1 + 3 * (to_ns jo + to_ns to) ≡ wcet_3 * million)
      × IsWithin
          (3 * busyloop_tolerance)
          (wcet_1 * million)
          (busy_ns takes (tau_1_prog true true).1 + 3 * (to_ns jo + to_ns to))
      × IsWithin busyloop_tolerance
          (wcet_2 * million)
          (busy_ns takes tau_2_prog.1 + (to_ns jo + to_ns to))
      × IsWithin
          (3 * busyloop_tolerance)
          (wcet_3 * million)
          (busy_ns takes (tau_3_prog true true).1 + 3 * (to_ns jo + to_ns to))
      × (leaves_locked false (tau_1_prog locks unlocks).1 ≡ (locks && not unlocks))
      × (leaves_locked false (tau_3_prog locks unlocks).1 ≡ (locks && not unlocks))
      × ((tau_1_prog locks unlocks).0 ≡ (locks && unlocks))
      × (tau_2_prog.0 ≡ true)
      × ((tau_3_prog locks unlocks).0 ≡ (locks && unlocks))
unfolding asked_ns busy_ns leaves_locked tau_1_prog tau_2_prog tau_3_prog
programs_lem jo to takes locks unlocks nj nt small exact =
    let ten = length_of_exact jo to 10 nj nt (omega arith) in
    let thirty = length_of_exact jo to 30 nj nt (omega arith) in
    let long = length_of_exact jo to 500 nj nt (omega arith) in
    let (a, a') = exact 4 10 in
    let (b, b') = exact 2 10 in
    let (b3, b3') = exact 2 30 in
    let (c, c') = exact 0 10 in
    let (e, e') = exact 0 500 in
    (
      omega (arith, ten, small),
      omega (arith, long, small),
      omega (arith, ten, thirty, small),
      (omega (arith, ten, small, a, b, c), omega (arith, ten, small, a', b', c')),
      (omega (arith, long, small, e), omega (arith, long, small, e')),
      (omega (arith, ten, thirty, small, a, b3, c), omega (arith, ten, thirty, small, a', b3', c')),
      ground arith,
      ground arith,
      ground arith,
      refl,
      ground arith,
    )
