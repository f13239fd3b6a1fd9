-- ===== src/Time.antt =====
-- utility_time.h: the internal representation of a time, the conversions that touch no storage,
-- and the comparisons. The children hold the functions that work through pointers.
pub mod Store
pub mod Maintain
pub mod Convert
pub mod Arith
pub mod Compare
pub mod Exact
pub mod Overlap
pub mod Collect
pub mod Text
mod Examples
use realtime_tests.Prelude.{
  ℕ, ◌+◌, ◌*◌, ◌/◌, ◌%◌, ◌<◌, Bool, false, not, ◌&&◌, ◌||◌, ◌==◌, if◌then◌else◌, long_half,
  add_long, sub_long, lt_long, div_long, mod_long,
}

pub data TimeUnit : Type 0 where
  s ms us ns : TimeUnit

abbrev pub billion : ℕ
billion = 1000000000

abbrev pub million : ℕ
million = 1000000

abbrev pub thousand : ℕ
thousand = 1000

-- `struct timespec`: two `long`s.
pub record Timespec : Type 0 where
  pub tv_sec : ℕ
  pub tv_nsec : ℕ

abbrev pub timespec : ℕ → ℕ → Timespec
timespec sec nsec = record { tv_sec = sec; tv_nsec = nsec }

-- `utility_time`. The two flags are only ever 0 or 1.
pub record UtilityTime : Type 0 where
  pub t : Timespec
  pub dyn_alloc : Bool
  pub manual_gc : Bool

-- What `memset` to zero leaves.
abbrev pub zeroed : UtilityTime
zeroed = record { t = timespec 0 0; dyn_alloc = false; manual_gc = false }

-- The fields that `to_utility_time` writes.
unfoldable pub to_utility_time_fields : ℕ → TimeUnit → Timespec
to_utility_time_fields t s = timespec t 0
to_utility_time_fields t ms = timespec (t / thousand) (t % thousand * million)
to_utility_time_fields t us = timespec (t / million) (t % million * thousand)
to_utility_time_fields t ns = timespec (t / billion) (t % billion)

unfoldable pub combined_ns_in_s : Timespec → Timespec → ℕ
combined_ns_in_s a b = div_long (add_long a.tv_nsec b.tv_nsec) billion

unfoldable pub combined_ns_leftover : Timespec → Timespec → ℕ
combined_ns_leftover a b = mod_long (add_long a.tv_nsec b.tv_nsec) billion

unfoldable pub utility_time_eq : UtilityTime → UtilityTime → Bool
utility_time_eq t1 t2 = t1.t.tv_sec == t2.t.tv_sec && t1.t.tv_nsec == t2.t.tv_nsec

unfoldable pub utility_time_lt : UtilityTime → UtilityTime → Bool
utility_time_lt t1 t2 =
    lt_long t1.t.tv_sec t2.t.tv_sec
    || (t1.t.tv_sec == t2.t.tv_sec && lt_long t1.t.tv_nsec t2.t.tv_nsec)

unfoldable pub utility_time_le : UtilityTime → UtilityTime → Bool
unfolding utility_time_eq utility_time_lt
utility_time_le t1 t2 = utility_time_eq t1 t2 || utility_time_lt t1 t2

unfoldable pub utility_time_gt : UtilityTime → UtilityTime → Bool
unfolding utility_time_le
utility_time_gt t1 t2 = not (utility_time_le t1 t2)

unfoldable pub utility_time_ge : UtilityTime → UtilityTime → Bool
unfolding utility_time_lt
utility_time_ge t1 t2 = not (utility_time_lt t1 t2)

unfoldable pub utility_time_ne : UtilityTime → UtilityTime → Bool
unfolding utility_time_eq
utility_time_ne t1 t2 = not (utility_time_eq t1 t2)

-- The fields that `utility_time_add` writes.
unfoldable pub plus : Timespec → Timespec → Timespec
unfolding combined_ns_in_s combined_ns_leftover
plus a b =
    timespec (add_long (add_long a.tv_sec b.tv_sec) (combined_ns_in_s a b))
      (combined_ns_leftover a b)

-- What `utility_time_sub` leaves in the result.
unfoldable pub minus : UtilityTime → UtilityTime → Timespec
unfolding utility_time_le
minus a b =
    if utility_time_le a b
    then timespec 0 0
    else if lt_long a.t.tv_nsec b.t.tv_nsec
    then timespec (sub_long (sub_long a.t.tv_sec 1) b.t.tv_sec)
        (sub_long (add_long billion a.t.tv_nsec) b.t.tv_nsec)
    else timespec (sub_long a.t.tv_sec b.t.tv_sec) (sub_long a.t.tv_nsec b.t.tv_nsec)

-- A proper time: not negative, with its nanoseconds below a second.
pub record IsNormal (t : Timespec) : Type 0 where
  pub sec : t.tv_sec < long_half
  pub nsec : t.tv_nsec < billion

-- The nanoseconds that a time stands for.
abbrev pub to_ns : Timespec → ℕ
to_ns t = t.tv_sec * billion + t.tv_nsec
