-- ===== src/Time/Exact.antt =====
-- utility_time.h measured in nanoseconds: what the conversions, the comparisons, the sum and the
-- difference compute on proper times.
use realtime_tests.Prelude.{
  ℕ, zero, suc, ◌+◌, ◌-◌, ◌*◌, ◌<◌, ◌≤◌, ◌≡◌, ◌↔◌, true, false, arith, long_half, add_long,
  sub_long, lt_long, div_long, mod_long,
}
use realtime_tests.Time.{
  TimeUnit, Timespec, UtilityTime, billion, million, thousand, to_utility_time_fields,
  combined_ns_in_s, combined_ns_leftover, plus, minus, IsNormal, to_ns, utility_time_eq,
  utility_time_lt, utility_time_le, utility_time_gt, utility_time_ge, utility_time_ne,
}

-- The nanoseconds in a unit.
abbrev pub unit_ns : TimeUnit → ℕ
unit_ns TimeUnit.s = billion
unit_ns TimeUnit.ms = million
unit_ns TimeUnit.us = thousand
unit_ns TimeUnit.ns = 1

-- An integer in any of the four units becomes the time of exactly as many nanoseconds, and a
-- proper time, if its seconds fit.
pub to_utility_time_fields_exact :
    (t : ℕ) (unit : TimeUnit)
    → t * unit_ns unit < long_half * billion
    → (to_ns (to_utility_time_fields t unit) ≡ t * unit_ns unit)
      × IsNormal (to_utility_time_fields t unit)
unfolding to_utility_time_fields
to_utility_time_fields_exact t TimeUnit.s h = (omega arith, omega arith)
to_utility_time_fields_exact t TimeUnit.ms h = (omega arith, omega arith)
to_utility_time_fields_exact t TimeUnit.us h = (omega arith, omega arith)
to_utility_time_fields_exact t TimeUnit.ns h = (omega arith, omega arith)

-- The sum stands for the sum of the nanoseconds and is a proper time, if it fits.
pub plus_exact :
    (a b : Timespec)
    → IsNormal a
    → IsNormal b
    → to_ns a + to_ns b < long_half * billion
    → (to_ns (plus a b) ≡ to_ns a + to_ns b) × IsNormal (plus a b)
unfolding plus combined_ns_in_s combined_ns_leftover add_long div_long mod_long
plus_exact a b na nb h = ground arith

-- The difference stands for the truncated difference of the nanoseconds and is a proper time.
pub minus_exact :
    (a b : UtilityTime)
    → IsNormal a.t
    → IsNormal b.t
    → (to_ns (minus a b) ≡ to_ns a.t - to_ns b.t) × IsNormal (minus a b)
unfolding minus add_long sub_long lt_long utility_time_le
minus_exact a b na nb = ground arith

-- On two proper times, each of the six comparisons compares the nanoseconds.
pub comparisons_exact :
    (a b : UtilityTime)
    → IsNormal a.t
    → IsNormal b.t
    → ((utility_time_eq a b ≡ true) ↔ (to_ns a.t ≡ to_ns b.t))
      × ((utility_time_lt a b ≡ true) ↔ (to_ns a.t < to_ns b.t))
      × ((utility_time_le a b ≡ true) ↔ (to_ns a.t ≤ to_ns b.t))
      × ((utility_time_gt a b ≡ true) ↔ (to_ns b.t < to_ns a.t))
      × ((utility_time_ge a b ≡ true) ↔ (to_ns b.t ≤ to_ns a.t))
      × ((utility_time_ne a b ≡ false) ↔ (to_ns a.t ≡ to_ns b.t))
unfolding utility_time_eq utility_time_lt utility_time_le utility_time_gt utility_time_ge
    utility_time_ne lt_long
comparisons_exact a b na nb =
    (ground arith, ground arith, ground arith, ground arith, ground arith, ground arith)

-- `t` added to `acc` `n` times.
unfoldable pub times : ℕ → Timespec → Timespec → Timespec
times zero acc t = acc
times (suc n) acc t = times n (plus acc t) t

pub times_exact :
    (n : ℕ) (acc t : Timespec)
    → IsNormal acc
    → IsNormal t
    → to_ns acc + n * to_ns t < long_half * billion
    → (to_ns (times n acc t) ≡ to_ns acc + n * to_ns t) × IsNormal (times n acc t)
unfolding times
times_exact zero acc t na nt h = (omega arith, na)
times_exact (suc n) acc t na nt h =
    let (e, normal) = plus_exact acc t na nt (grind arith) in
    let (e', normal') = times_exact n (plus acc t) t normal nt (omega (arith, e)) in
    (omega (arith, e, e'), normal')
