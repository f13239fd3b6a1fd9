-- ===== src/Experiment/Parallel.antt =====
-- multicore_means_parallel_threads/main.c: what the last tests say of the readings.
use realtime_tests.Prelude.{ℕ, ◌+◌, ◌-◌, ◌≡◌, ◌∙◌, not, ◌&&◌, leb, Bool-cases, inl, inr, arith}
use realtime_tests.Time.{Timespec, IsNormal, to_ns, minus, utility_time_ge, utility_time_gt}
use realtime_tests.Time.Exact.{minus_exact, comparisons_exact}
use realtime_tests.Experiment.Multicore.{variable, delta, is_parallel}

-- The distance of two numbers.
abbrev pub dist : ℕ → ℕ → ℕ
dist a b = (a - b) + (b - a)

delta_exact :
    (a b : Timespec)
    → IsNormal a
    → IsNormal b
    → (to_ns (delta a b) ≡ dist (to_ns a) (to_ns b)) × IsNormal (delta a b)
delta_exact a b na nb =
    let (up, up_normal) = minus_exact (variable a) (variable b) na nb in
    let (down, down_normal) = minus_exact (variable b) (variable a) nb na in
    let ge = (comparisons_exact (variable a) (variable b) na nb).4 in
    elim (Bool-cases (utility_time_ge (variable a) (variable b))) [
      | inl big ↦ rw big (omega (arith, up, ge.0 big), up_normal)
      | inr small ↦ rw small (ground (arith, down, ge, small), down_normal)
    ]

within_lem :
    (a b : Timespec) (x : ℕ)
    → IsNormal a
    → IsNormal b
    → to_ns a ≡ x
    → not (utility_time_gt (variable a) (variable b)) ≡ leb x (to_ns b)
within_lem a b x na nb e =
    let gt = (comparisons_exact (variable a) (variable b) na nb).3 in
    elim (Bool-cases (utility_time_gt (variable a) (variable b))) [
      | inl over ↦ ground (arith, over, gt, e)
      | inr within ↦ ground (arith, within, gt, e)
    ]

-- For proper readings and a proper tolerance, the two threads ran in parallel exactly if the
-- times at which they began, the times that they took, and the times at which they ended are each
-- no further apart than the tolerance, in nanoseconds; a thread that ends before it begins took
-- no time.
pub is_parallel_exact :
    (t_begin0 t_end0 t_begin1 t_end1 tolerance : Timespec)
    → IsNormal t_begin0
    → IsNormal t_end0
    → IsNormal t_begin1
    → IsNormal t_end1
    → IsNormal tolerance
    → is_parallel t_begin0 t_end0 t_begin1 t_end1 tolerance ≡ (
        leb (dist (to_ns t_begin0) (to_ns t_begin1)) (to_ns tolerance)
        && (leb
              (dist (to_ns t_end0 - to_ns t_begin0) (to_ns t_end1 - to_ns t_begin1))
              (to_ns tolerance)
            && leb (dist (to_ns t_end0) (to_ns t_end1)) (to_ns tolerance)))
unfolding is_parallel
is_parallel_exact b0 e0 b1 e1 tolerance nb0 ne0 nb1 ne1 nt =
    let (d0, nd0) = minus_exact (variable e0) (variable b0) ne0 nb0 in
    let (d1, nd1) = minus_exact (variable e1) (variable b1) ne1 nb1 in
    let (begins, nbegins) = delta_exact b0 b1 nb0 nb1 in
    let (ends, nends) = delta_exact e0 e1 ne0 ne1 in
    let (lasts, nlasts) =
      delta_exact (minus (variable e0) (variable b0)) (minus (variable e1) (variable b1)) nd0 nd1 in
    λ i.
      within_lem (delta b0 b1) tolerance _ nbegins nt begins i
      && (within_lem (delta (minus (variable e0) (variable b0)) (minus (variable e1) (variable b1)))
            tolerance _ nlasts nt (lasts ∙ (λ j. dist (d0 j) (d1 j))) i
          && within_lem (delta e0 e1) tolerance _ nends nt ends i)
