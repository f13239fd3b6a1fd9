-- ===== src/Time/Examples.antt =====
-- Tests of utility_time.h, and its theorems at concrete objects.
use realtime_tests.Prelude.{
  ℕ, ◌+◌, ◌-◌, ◌<◌, ◌≤◌, ◌≡◌, ◌↔◌, refl, true, false, none, some, List, [], ◌∷◌, ◌++◌, arith, ◌==◌,
  if◌then◌else◌,
}
use realtime_tests.Time.{
  UtilityTime, timespec, to_ns, plus, utility_time_eq, utility_time_lt, utility_time_le,
  utility_time_gt, utility_time_ge, utility_time_ne,
}
use realtime_tests.Time.Store.{Heap, put}
use realtime_tests.Time.Arith.{utility_time_add, utility_time_sub, utility_time_add_dyn_gc}
use realtime_tests.Time.Exact.{comparisons_exact}
use realtime_tests.Time.Overlap.{Leaves, utility_time_add_exact, utility_time_sub_exact}
use realtime_tests.Time.Collect.{dynamic, allocated, utility_time_add_dyn_gc_lem}
use realtime_tests.Time.Text.{format_time, string_to_utility_time}
use realtime_tests.Time.Text.RoundTrip.{string_to_utility_time-format_time}

abbrev stack : ℕ → ℕ → UtilityTime
stack sec nsec = record { t = timespec sec nsec; dyn_alloc = false; manual_gc = false }

-- 1.6 s on the stack at 1, and 0.7 s at 2 that the collector frees; `malloc` gives 9, then fails.
abbrev heap : Heap
heap = record {
  cell = λ p.
      if p == 1
      then some (stack 1 600000000)
      else if p == 2
      then some (dynamic (timespec 0 700000000))
      else none;
  supply = (9, stack 5 5) ∷ [];
}

-- The sum is left in the second operand.
utility_time_add_exact_example :
    Leaves heap 2
      (dynamic (timespec 0 700000000))
      (1600000000 + 700000000)
      (utility_time_add 1 2 2 heap)
utility_time_add_exact_example =
    utility_time_add_exact heap 1 2 2 {a = stack 1 600000000} refl refl refl (omega arith)
      (omega arith) (omega arith)

utility_time_sub_exact_example :
    Leaves heap 1 (stack 1 600000000) (1600000000 - 700000000) (utility_time_sub 1 2 1 heap)
utility_time_sub_exact_example =
    utility_time_sub_exact heap 1 2 1 {b = dynamic (timespec 0 700000000)} refl refl refl
      (omega arith) (omega arith)

comparisons_exact_example :
    let a = stack 1 5 in
    let b = stack 1 7 in
    ((utility_time_eq a b ≡ true) ↔ (to_ns a.t ≡ to_ns b.t))
    × ((utility_time_lt a b ≡ true) ↔ (to_ns a.t < to_ns b.t))
    × ((utility_time_le a b ≡ true) ↔ (to_ns a.t ≤ to_ns b.t))
    × ((utility_time_gt a b ≡ true) ↔ (to_ns b.t < to_ns a.t))
    × ((utility_time_ge a b ≡ true) ↔ (to_ns b.t ≤ to_ns a.t))
    × ((utility_time_ne a b ≡ false) ↔ (to_ns a.t ≡ to_ns b.t))
comparisons_exact_example = comparisons_exact (stack 1 5) (stack 1 7) (omega arith) (omega arith)

utility_time_add_dyn_gc_lem_example :
    utility_time_add_dyn_gc 1 2 heap
    ≡ some (
      9,
      put
          (put
            (allocated heap 9 (dynamic (plus (timespec 1 600000000) (timespec 0 700000000))) [])
            1
            (some (stack 1 600000000)))
          2
          none,
    )
utility_time_add_dyn_gc_lem_example =
    utility_time_add_dyn_gc_lem heap 9 (stack 5 5) [] refl 1 2 {a = stack 1 600000000}
      {b = dynamic (timespec 0 700000000)} refl refl refl (omega arith)

abbrev no_memory : Heap
no_memory = record heap { supply = (0, stack 0 0) ∷ [] }

string_to_utility_time-format_time_example :
    string_to_utility_time (format_time (stack 12 34) ++ (b'7' ∷ [])) ≡ (timespec 12 34, b'7' ∷ [])
string_to_utility_time-format_time_example =
    string_to_utility_time-format_time (stack 12 34) (b'7' ∷ []) (omega arith) (omega arith)

-- Nineteen digits, for a number of seconds below 2 ^ 63.
abbrev nineteen : List ℕ
nineteen =
    b'1' ∷ b'0' ∷ b'0' ∷ b'0' ∷ b'0' ∷ b'0' ∷ b'0' ∷ b'0' ∷ b'0' ∷ b'0' ∷ b'0' ∷ b'0' ∷ b'0' ∷ b'0'
    ∷ b'0' ∷ b'0' ∷ b'0' ∷ b'0' ∷ b'0' ∷ []

parsed :
    (string_to_utility_time (b'4' ∷ b'5' ∷ b'.' ∷ b' ' ∷ []) ≡ (timespec 45 0, b'.' ∷ b' ' ∷ []))
    × (string_to_utility_time (b'1' ∷ b'.' ∷ b'5' ∷ b'x' ∷ []) ≡ (timespec 1 500000000, b'x' ∷ []))
unfolding string_to_utility_time
parsed = (refl, refl)

printed :
    format_time (stack 12 34)
    ≡ b'1' ∷ b'2' ∷ b'.' ∷ b'0' ∷ b'0' ∷ b'0' ∷ b'0' ∷ b'0' ∷ b'0' ∷ b'0' ∷ b'3' ∷ b'4' ∷ []
unfolding format_time
printed = refl
