-- ===== src/Job/Saved.antt =====
-- job.c: the rounds of the loop of `jobstats_ringbuf_save`.
use realtime_tests.Prelude.{
  ℕ, zero, suc, ◌+◌, ◌-◌, ◌%◌, ◌<◌, ◌≤◌, ◌≡◌, refl, ap, ◌∙◌, some, List, [], ◌∷◌, ◌++◌,
  append_assoc, ◌==◌, if◌then◌else◌, length, length-append, get_elem?, add_long, long_mod, arith,
}
use realtime_tests.Prelude.Int.{pos}
use native.Mathlib.Nat.{mod-eq_of_lt}
use realtime_tests.Job.{JobStatistics, OutStream}
use realtime_tests.Job.Saving.{ok, save_loop}

abbrev Stats : Type 0
Stats = List JobStatistics

abbrev pub stream : List JobStatistics → ℕ → OutStream JobStatistics
stream written room = record { written = written; room = room }

get_elem?-append :
    (front : Stats) (x : JobStatistics) (back : Stats) (i : ℕ)
    → i ≡ length front
    → get_elem? (front ++ (x ∷ back)) i ≡ some x
get_elem?-append [] x back zero e = refl
get_elem?-append [] x back (suc i) e = absurd (omega arith)
get_elem?-append (y ∷ front) x back zero e = absurd (omega arith)
get_elem?-append (y ∷ front) x back (suc i) e = get_elem?-append front x back i (omega arith)

-- One round that can write, at the slot of `x`.
round :
    (fuel : ℕ) (front : Stats) (x : JobStatistics) (back : Stats) (n i end : ℕ) (w : Stats)
    (room : ℕ)
    → i % n ≡ length front
    → length front + 1 < long_mod
    → 0 < room
    → save_loop (suc fuel) (front ++ (x ∷ back)) n i end (stream w room) ≡ (
        if length front + 1 == end
        then ok (pos 0, stream (w ++ (x ∷ [])) (room - 1))
        else save_loop fuel
            (front ++ (x ∷ back))
            n
            (length front + 1)
            end
            (stream (w ++ (x ∷ [])) (room - 1)))
unfolding save_loop add_long
round fuel front x back n i end w room e small more =
    ground (arith, get_elem?-append front x back (i % n) e)

module _ (n end : ℕ) (small : n < long_mod) where
  -- From the slot behind `front` up to `end`, behind `xs`.
  pub rounds_to_end :
      (xs : Stats) (x : JobStatistics) (fuel : ℕ) (front back w : Stats) (i room : ℕ)
      → i % n ≡ length front
      → length front + suc (length xs) ≡ end
      → end ≤ n
      → suc (length xs) ≤ fuel
      → suc (length xs) ≤ room
      → save_loop fuel (front ++ ((x ∷ xs) ++ back)) n i end (stream w room)
        ≡ ok (pos 0, stream (w ++ (x ∷ xs)) (room - suc (length xs)))
  rounds_to_end xs x zero front back w i room ei eend le lf lr = absurd (omega arith)
  rounds_to_end [] x (suc fuel) front back w i room ei eend le lf lr =
      round fuel front x back n i end w room ei (omega arith) (omega arith) ∙ ground arith
  rounds_to_end (y ∷ ys) x (suc fuel) front back w i room ei eend le lf lr =
      round fuel front x ((y ∷ ys) ++ back) n i end w room ei (omega arith) (omega arith)
      ∙ ground (
        arith,
        length-append front (x ∷ []),
        append_assoc front (x ∷ []) ((y ∷ ys) ++ back),
        append_assoc w (x ∷ []) (y ∷ ys),
        rounds_to_end ys y fuel (front ++ (x ∷ [])) back (w ++ (x ∷ [])) (length front + 1)
            (room - 1)
            (mod-eq_of_lt {n = length front + 1} {m = n} (omega arith)
              ∙ omega (arith, length-append front (x ∷ [])))
            (omega (arith, length-append front (x ∷ []))) le (omega arith) (omega arith),
      )

  -- From the slot behind `front` to the last slot, where `end` lies before.
  pub rounds_to_last :
      (xs : Stats) (x : JobStatistics) (fuel : ℕ) (front w : Stats) (i room : ℕ)
      → i % n ≡ length front
      → length front + suc (length xs) ≡ n
      → end ≤ length front
      → suc (length xs) ≤ room
      → save_loop (suc (length xs) + fuel) (front ++ (x ∷ xs)) n i end (stream w room)
        ≡ save_loop fuel
            (front ++ (x ∷ xs))
            n
            n
            end
            (stream (w ++ (x ∷ xs)) (room - suc (length xs)))
  rounds_to_last [] x fuel front w i room ei en le lr =
      ap (λ f. save_loop f (front ++ (x ∷ [])) n i end (stream w room)) (omega arith)
      ∙ round fuel front x [] n i end w room ei (omega arith) (omega arith)
      ∙ ground arith
  rounds_to_last (y ∷ ys) x fuel front w i room ei en le lr =
      ap (λ f. save_loop f (front ++ (x ∷ (y ∷ ys))) n i end (stream w room)) (omega arith)
      ∙ round (suc (length ys) + fuel) front x (y ∷ ys) n i end w room ei (omega arith)
          (omega arith)
      ∙ ground (
        arith,
        append_assoc front (x ∷ []) (y ∷ ys),
        append_assoc w (x ∷ []) (y ∷ ys),
        rounds_to_last ys y fuel (front ++ (x ∷ [])) (w ++ (x ∷ [])) (length front + 1) (room - 1)
            (mod-eq_of_lt {n = length front + 1} {m = n} (omega arith)
              ∙ omega (arith, length-append front (x ∷ [])))
            (omega (arith, length-append front (x ∷ [])))
            (omega (arith, length-append front (x ∷ []))) (omega arith),
      )
