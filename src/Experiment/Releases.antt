-- ===== src/Experiment/Releases.antt =====
-- What the experiments release, and when.
use realtime_tests.Prelude.{
  ℕ, ◌+◌, ◌≡◌, refl, Bool, true, false, not, ◌&&◌, ◌||◌, List, [], ◌∷◌, ◌++◌, ◌==◌, leb,
  if◌then◌else◌, arith,
}
use realtime_tests.Experiment.{
  Resource, Call, Event, Step, Exit, Ending, acquired, released, started, joined, succeeds, fails,
  exits, hangs, exit_success, exit_failure, never, same, main_begin, finish, run, each, is_set,
  clean_up,
}
use realtime_tests.Experiment.Outcomes.{all, outcomes, main-outcomes}
use realtime_tests.Experiment.EarliestDeadlineFirst
use realtime_tests.Experiment.RateMonotonic
use realtime_tests.Experiment.PriorityInversion
use realtime_tests.Experiment.Multicore

abbrev pub acquires : Resource → Event → ℕ
acquires r (acquired r') = if same r r' then 1 else 0
acquires r _ = 0

abbrev pub releases : Resource → Event → ℕ
releases r (released r') = if same r r' then 1 else 0
releases r _ = 0

unfoldable pub sum : (Event → ℕ) → List Event → ℕ
sum f [] = 0
sum f (e ∷ es) = f e + sum f es

-- Whether each resource of the events is acquired once and then released once, or not at all if
-- it is one that leaks.
unfoldable pub is_balanced : (leaks : Resource → Bool) → List Event → List Event → Bool
is_balanced leaks es [] = true
is_balanced leaks es (acquired r ∷ rest) =
    let later = is_balanced leaks es rest in
    sum (acquires r) es == 1 && (sum (releases r) es == (if leaks r then 0 else 1) && later)
is_balanced leaks es (released r ∷ rest) =
    let later = is_balanced leaks es rest in sum (acquires r) es == 1 && later
is_balanced leaks es (_ ∷ rest) = is_balanced leaks es rest

-- What is not released after a failure: the tolerance of the busy loops if one cannot be created,
-- the period of a task that cannot be created, and the attributes of a mutex whose protocol cannot
-- be set.
abbrev pub is_leaked : Ending → Resource → Bool
is_leaked (fails (Call.create_cpu_busyloop n)) Resource.tolerance = true
is_leaked (fails (Call.task_create n)) (Resource.period m) = n == m
is_leaked (fails Call.setprotocol) Resource.mutex_attributes = true
is_leaked _ _ = false

abbrev pub is_success : Exit → Bool
is_success exit_success = true
is_success exit_failure = false
is_success never = false

abbrev pub is_end : Ending → Bool
is_end succeeds = true
is_end (fails c) = false
is_end (exits c) = false
is_end (hangs c) = false

abbrev pub iff : Bool → Bool → Bool
iff true b = b
iff false b = not b

abbrev pub is_never : Exit → Bool
is_never exit_success = false
is_never exit_failure = false
is_never never = true

-- It exits with success exactly if its steps came to their end, and everything that it acquired is
-- released whenever it exits, but for what leaks.
abbrev pub is_clean : Ending → Exit × List Event → Bool
is_clean end (exit, es) =
    iff (is_success exit) (is_end end) && (is_never exit || is_balanced (is_leaked end) es es)

-- What the thread of a task uses: the task and the times that it was created with, and what its
-- program is given.
abbrev pub uses_own : ℕ → Resource → Bool
uses_own id (Resource.tau n) = n == id
uses_own id (Resource.times n) = n == id
uses_own id (Resource.busyloop n) = n == id
uses_own id _ = false

abbrev pub uses_shared : ℕ → Resource → Bool
uses_shared id (Resource.tau n) = n == id
uses_shared id (Resource.busyloop n) = true
uses_shared id Resource.mutex = true
uses_shared id _ = false

unfoldable pub is_used : (ℕ → Resource → Bool) → List ℕ → Resource → Bool
is_used uses [] r = false
is_used uses (id ∷ running) r = uses id r || is_used uses running r

unfoldable pub without : ℕ → List ℕ → List ℕ
without id [] = []
without id (n ∷ ns) = let rest = without id ns in if n == id then rest else n ∷ rest

-- Whether something is released that a thread uses which was started, and is not joined.
unfoldable pub frees_used : (uses : ℕ → Resource → Bool) → (running : List ℕ) → List Event → Bool
unfolding is_used without
frees_used uses running [] = false
frees_used uses running (started n ∷ es) = frees_used uses (n ∷ running) es
frees_used uses running (joined n ∷ es) = frees_used uses (without n running) es
frees_used uses running (released r ∷ es) = is_used uses running r || frees_used uses running es
frees_used uses running (_ ∷ es) = frees_used uses running es

-- A failure behind the creation of the first thread, up to the last join.
abbrev pub is_late : Ending → Bool
is_late (fails (Call.pthread_create n)) = leb 2 n
is_late (fails Call.clock_nanosleep) = true
is_late (fails (Call.pthread_join n)) = true
is_late _ = false

abbrev frees_if_late : (ℕ → Resource → Bool) → Ending → Exit × List Event → Bool
frees_if_late uses end (exit, es) = iff (frees_used uses [] es) (is_late end)

clean_edf :
    all
      (λ x. is_clean x.0 (finish EarliestDeadlineFirst.variables x))
      (outcomes (main_begin ++ EarliestDeadlineFirst.steps))
    ≡ true
unfolding all outcomes each is_set clean_up sum is_balanced EarliestDeadlineFirst.prepare
    EarliestDeadlineFirst.create_tasks EarliestDeadlineFirst.start_threads
    EarliestDeadlineFirst.stop_threads
clean_edf = refl

late_edf :
    all
      (λ x. frees_if_late uses_own x.0 (finish EarliestDeadlineFirst.variables x))
      (outcomes (main_begin ++ EarliestDeadlineFirst.steps))
    ≡ true
unfolding all outcomes each is_set clean_up frees_used is_used without EarliestDeadlineFirst.prepare
    EarliestDeadlineFirst.create_tasks EarliestDeadlineFirst.start_threads
    EarliestDeadlineFirst.stop_threads
late_edf = refl

clean_rm :
    all
      (λ x. is_clean x.0 (finish RateMonotonic.variables x))
      (outcomes (main_begin ++ RateMonotonic.steps))
    ≡ true
unfolding all outcomes each is_set clean_up sum is_balanced RateMonotonic.prepare
    RateMonotonic.create_tasks RateMonotonic.start_threads RateMonotonic.stop_threads
clean_rm = refl

late_rm :
    all
      (λ x. frees_if_late uses_own x.0 (finish RateMonotonic.variables x))
      (outcomes (main_begin ++ RateMonotonic.steps))
    ≡ true
unfolding all outcomes each is_set clean_up frees_used is_used without RateMonotonic.prepare
    RateMonotonic.create_tasks RateMonotonic.start_threads RateMonotonic.stop_threads
late_rm = refl

clean_pi :
    all
      (λ x. is_clean x.0 (finish PriorityInversion.variables x))
      (outcomes (main_begin ++ PriorityInversion.steps))
    ≡ true
unfolding all outcomes each is_set clean_up sum is_balanced PriorityInversion.prepare
    PriorityInversion.create_tasks PriorityInversion.start_threads PriorityInversion.stop_threads
clean_pi = refl

late_pi :
    all
      (λ x. frees_if_late uses_shared x.0 (finish PriorityInversion.variables x))
      (outcomes (main_begin ++ PriorityInversion.steps))
    ≡ true
unfolding all outcomes each is_set clean_up frees_used is_used without PriorityInversion.prepare
    PriorityInversion.create_tasks PriorityInversion.start_threads PriorityInversion.stop_threads
late_pi = refl

clean_multicore :
    all
      (λ x. is_clean x.0 (finish Multicore.variables x))
      (outcomes (main_begin ++ Multicore.steps))
    ≡ true
unfolding all outcomes each is_set clean_up sum is_balanced Multicore.prepare Multicore.run_threads
clean_multicore = refl

iff-≡ : (a b : Bool) → iff a b ≡ true → a ≡ b
iff-≡ true b h = ground arith
iff-≡ false b h = ground arith

-- How the steps of a program end, for the answers of its calls.
abbrev pub ending : List Step → (Call → Bool) → Ending
ending steps ok = (run ok (main_begin ++ steps)).0

-- Whatever the calls answer, each of the four experiments exits with success exactly if its steps
-- come to their end. Whenever it exits, it has acquired everything it held once, and released it
-- once, with these exceptions, which it never releases: the tolerance of the busy loops if one of
-- them cannot be created, in earliest_deadline_first and rate_monotonic; the period of a task that
-- cannot be created, in rate_monotonic; and the attributes of the mutex if its protocol cannot be
-- set, in priority_inversion_in_RM.
pub experiments_release :
    (ok : Call → Bool)
    → (is_clean (ending EarliestDeadlineFirst.steps ok) (EarliestDeadlineFirst.experiment ok)
        ≡ true)
      × (is_clean (ending RateMonotonic.steps ok) (RateMonotonic.experiment ok) ≡ true)
      × (is_clean (ending PriorityInversion.steps ok) (PriorityInversion.experiment ok) ≡ true)
      × (is_clean (ending Multicore.steps ok) (Multicore.experiment ok) ≡ true)
unfolding EarliestDeadlineFirst.experiment RateMonotonic.experiment PriorityInversion.experiment
    Multicore.experiment
experiments_release ok = (
  main-outcomes EarliestDeadlineFirst.steps EarliestDeadlineFirst.variables is_clean clean_edf ok,
  main-outcomes RateMonotonic.steps RateMonotonic.variables is_clean clean_rm ok,
  main-outcomes PriorityInversion.steps PriorityInversion.variables is_clean clean_pi ok,
  main-outcomes Multicore.steps Multicore.variables is_clean clean_multicore ok,
)

-- Whatever the calls answer, the three experiments with tasks release something that the thread of
-- a task uses after the thread is started and before this thread is joined, exactly if a call
-- fails behind the creation of the first thread and up to the join of the last one: if another
-- thread cannot be created, if the wait for the stopping time is interrupted, or if a thread cannot
-- be joined. A thread uses its task and its busy loop, in earliest_deadline_first also the times
-- of the task, and in priority_inversion_in_RM all busy loops and the mutex.
pub experiments_late :
    (ok : Call → Bool)
    → (frees_used uses_own [] (EarliestDeadlineFirst.experiment ok).1
        ≡ is_late (ending EarliestDeadlineFirst.steps ok))
      × (frees_used uses_own [] (RateMonotonic.experiment ok).1
          ≡ is_late (ending RateMonotonic.steps ok))
      × (frees_used uses_shared [] (PriorityInversion.experiment ok).1
          ≡ is_late (ending PriorityInversion.steps ok))
unfolding EarliestDeadlineFirst.experiment RateMonotonic.experiment PriorityInversion.experiment
experiments_late ok = (
  iff-≡ _ _ (
      main-outcomes EarliestDeadlineFirst.steps EarliestDeadlineFirst.variables
        (frees_if_late uses_own) late_edf ok),
  iff-≡ _ _ (
      main-outcomes RateMonotonic.steps RateMonotonic.variables (frees_if_late uses_own) late_rm
        ok),
  iff-≡ _ _ (
      main-outcomes PriorityInversion.steps PriorityInversion.variables (frees_if_late uses_shared)
        late_pi ok),
)
