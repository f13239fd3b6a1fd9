-- ===== src/Prelude/Words.antt =====
-- 64-bit words of the LP64 data model. A `long` is its two's complement bit pattern, a number
-- below 2 ^ 64; arithmetic wraps.
use Prim.Native.Nat.{ℕ, ◌+◌, ◌-◌, ◌/◌, ◌%◌, ◌^◌, ◌<◌}
use mathlib.Core.Path.{◌≡◌}
use mathlib.Core.Bool.{Bool}
use native.Mathlib.Omega.{arith}
use realtime_tests.Prelude.Tests.{ltb, if◌then◌else◌}

abbrev pub long_half : ℕ
long_half = 2 ^ 63

abbrev pub long_mod : ℕ
long_mod = 2 ^ 64

unfoldable pub add_long : ℕ → ℕ → ℕ
add_long a b = (a + b) % long_mod

unfoldable pub sub_long : ℕ → ℕ → ℕ
sub_long a b = (a + long_mod - b) % long_mod

-- `a < b` on two `long`s.
unfoldable pub lt_long : ℕ → ℕ → Bool
lt_long a b = ltb ((a + long_half) % long_mod) ((b + long_half) % long_mod)

-- `a / n` and `a % n` for a `long` and a positive constant: they truncate towards zero.
unfoldable pub div_long : ℕ → ℕ → ℕ
div_long a n = if ltb a long_half then a / n else (long_mod - (long_mod - a) / n) % long_mod

unfoldable pub mod_long : ℕ → ℕ → ℕ
mod_long a n = if ltb a long_half then a % n else (long_mod - (long_mod - a) % n) % long_mod

pub lt_long-eq-ltb : (a b : ℕ) → a < long_half → b < long_half → lt_long a b ≡ ltb a b
unfolding lt_long
lt_long-eq-ltb a b ha hb = ground arith

pub div_long-eq-div : (a n : ℕ) → a < long_half → div_long a n ≡ a / n
unfolding div_long
div_long-eq-div a n h = ground arith

pub mod_long-eq-mod : (a n : ℕ) → a < long_half → mod_long a n ≡ a % n
unfolding mod_long
mod_long-eq-mod a n h = ground arith

-- The same for a 32-bit `int`.
abbrev pub int_half : ℕ
int_half = 2 ^ 31

abbrev pub int_mod : ℕ
int_mod = 2 ^ 32

unfoldable pub sub_int : ℕ → ℕ → ℕ
sub_int a b = (a + int_mod - b) % int_mod

-- `a < b` on two `int`s.
unfoldable pub lt_int : ℕ → ℕ → Bool
lt_int a b = ltb ((a + int_half) % int_mod) ((b + int_half) % int_mod)
