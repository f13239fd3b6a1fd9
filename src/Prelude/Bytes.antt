-- ===== src/Prelude/Bytes.antt =====
-- Fixed-width integers as bytes, lowest first: the layout of a packed structure on a little-endian
-- host.
use realtime_tests.Prelude.Lists.{length}
use Prim.Native.Nat.{ℕ, zero, suc, ◌+◌, ◌*◌, ◌/◌, ◌%◌, ◌^◌, ◌<◌}
use mathlib.Core.Path.{◌≡◌, refl, ap}
use mathlib.Core.List.{List, [], ◌∷◌}
use native.Mathlib.Omega.{arith}

unfoldable pub encode : ℕ → ℕ → List ℕ
encode zero n = []
encode (suc k) n = n % 256 ∷ encode k (n / 256)

unfoldable pub decode : List ℕ → ℕ
decode [] = 0
decode (b ∷ bs) = b + 256 * decode bs

pub length-encode : (k n : ℕ) → length (encode k n) ≡ k
unfolding encode
length-encode zero n = refl
length-encode (suc k) n = ap suc (length-encode k (n / 256))

-- Decoding an encoded number gives it back, if it fits.
pub decode-encode : (k n : ℕ) → n < 256 ^ k → decode (encode k n) ≡ n
unfolding encode decode
decode-encode zero n h = omega arith
decode-encode (suc k) n h = omega (arith, decode-encode k (n / 256) (omega arith))

-- A number that does not fit loses what is above.
pub decode-encode_mod4 : (n : ℕ) → decode (encode 4 n) ≡ n % 2 ^ 32
unfolding encode decode
decode-encode_mod4 n = omega arith
