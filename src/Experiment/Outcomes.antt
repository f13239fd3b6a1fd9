-- ===== src/Experiment/Outcomes.antt =====
-- The outcomes of a program of steps are finitely many: they can all be tested.
use realtime_tests.Prelude.{
  ◌≡◌, refl, sym, ap, ◌∙◌, Bool, true, ◌&&◌, List, [], ◌∷◌, ◌++◌, Bool-cases, inl, inr, map, arith,
}
use realtime_tests.Experiment.{
  Call, Step, Failure, Event, Resource, Exit, Ending, succeeds, fails, exits, hangs, exits_at_once,
  goes_to_error, is_logged, waits_forever, otherwise, after, run, main_begin, finish, main,
}

abbrev failing : Failure → Call → List (Ending × List Event) → List (Ending × List Event)
failing exits_at_once c rest = (exits c, []) ∷ []
failing goes_to_error c rest = (fails c, []) ∷ []
failing is_logged c rest = rest
failing waits_forever c rest = (hangs c, []) ∷ []

-- The outcomes for all answers of the calls.
unfoldable pub outcomes : List Step → List (Ending × List Event)
outcomes [] = (succeeds, []) ∷ []
outcomes (s ∷ ss) =
    let rest = outcomes ss in
    map (after s.before) (failing s.failure s.call rest ++ map (after s.effects) rest)

unfoldable pub all : {A : Type 0} → (A → Bool) → List A → Bool
all test [] = true
all test (x ∷ xs) = test x && all test xs

all-append :
    {A : Type 0} (test : A → Bool) (xs ys : List A)
    → all test (xs ++ ys) ≡ true
    → (all test xs ≡ true) × (all test ys ≡ true)
unfolding all
all-append test [] ys h = (refl, h)
all-append test (x ∷ xs) ys h =
    let ih = all-append test xs ys (ground arith) in (ground (arith, ih.0), ih.1)

all-map :
    {A B : Type 0} (f : A → B) (test : B → Bool) (xs : List A)
    → all test (map f xs) ≡ all (λ x. test (f x)) xs
unfolding all
all-map f test [] = refl
all-map f test (x ∷ xs) = ap (λ b. test (f x) && b) (all-map f test xs)

otherwise_lem :
    (f : Failure) (c : Call) (test : Ending × List Event → Bool) (x : Ending × List Event)
    (rest : List (Ending × List Event))
    → (all test rest ≡ true → test x ≡ true)
    → all test (failing f c rest) ≡ true
    → test (otherwise f c x) ≡ true
unfolding all
otherwise_lem exits_at_once c test x rest h a = ground arith
otherwise_lem goes_to_error c test x rest h a = ground arith
otherwise_lem is_logged c test x rest h a = h a
otherwise_lem waits_forever c test x rest h a = ground arith

run-outcomes :
    (ok : Call → Bool) (ss : List Step) (test : Ending × List Event → Bool)
    → all test (outcomes ss) ≡ true
    → test (run ok ss) ≡ true
unfolding run outcomes
run-outcomes ok [] test h = unfold all in ground arith
run-outcomes ok (s ∷ ss) test h =
    let later : Ending × List Event → Bool = λ x. test (after s.before x) in
    let both =
      sym (
        all-map (after s.before) test
          (failing s.failure s.call (outcomes ss) ++ map (after s.effects) (outcomes ss)))
      ∙ h in
    let (bad, good) =
      all-append later (failing s.failure s.call (outcomes ss))
        (map (after s.effects) (outcomes ss)) both in
    elim (Bool-cases (ok s.call)) [
      | inl well ↦ rw well (
          run-outcomes ok ss (λ x. later (after s.effects x))
            (sym (all-map (after s.effects) later (outcomes ss)) ∙ good))
      | inr ill ↦ rw ill (
          otherwise_lem s.failure s.call later (run ok ss) (outcomes ss) (run-outcomes ok ss later)
            bad)
    ]

-- What a test of all outcomes shows of a program, with how its steps ended.
pub main-outcomes :
    (steps : List Step) (variables : List Resource) (test : Ending → Exit × List Event → Bool)
    → all (λ x. test x.0 (finish variables x)) (outcomes (main_begin ++ steps)) ≡ true
    → (ok : Call → Bool) → test (run ok (main_begin ++ steps)).0 (main steps variables ok) ≡ true
unfolding main
main-outcomes steps variables test h ok =
    run-outcomes ok (main_begin ++ steps) (λ x. test x.0 (finish variables x)) h
