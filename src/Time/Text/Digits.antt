-- ===== src/Time/Text/Digits.antt =====
-- The printed digits of a number: that they are digits, how many there are, what they read as.
use realtime_tests.Prelude.{
  ◌∙◌, append-nil, ℕ, zero, suc, ◌+◌, ◌-◌, ◌/◌, ◌%◌, ◌^◌, ◌<◌, ◌≤◌, ◌≡◌, refl, List, [], ◌∷◌, ◌++◌,
  length, All, arith, true, replicate, length-append, length-replicate, All-append,
}
use realtime_tests.Time.Text.{
  dot, is_digit, decimal, print_lu, print_09lu, read_digits, count_digits,
}

abbrev pub AllDigits : List ℕ → Type 0
AllDigits = All (λ c. is_digit c ≡ true)

decimal-AllDigits : (k n : ℕ) (out : List ℕ) → AllDigits out → AllDigits (decimal k n out)
unfolding decimal
decimal-AllDigits zero n out h = h
decimal-AllDigits (suc k) n out h =
    ground (arith, decimal-AllDigits k (n / 10) ((b'0' + n % 10) ∷ out) (ground arith, h))

-- A number below `10 ^ (j + 1)` takes at most `j + 1` digits.
length-decimal :
    (k j n : ℕ) (out : List ℕ) → n < 10 ^ suc j → length (decimal k n out) ≤ length out + suc j
unfolding decimal
length-decimal zero j n out h = omega arith
length-decimal (suc k) zero n out h = ground arith
length-decimal (suc k) (suc j) n out h =
    ground (arith, length-decimal k j (n / 10) ((b'0' + n % 10) ∷ out) (omega arith))

decimal_longer : (k n : ℕ) (out : List ℕ) → length out ≤ length (decimal k n out)
unfolding decimal
decimal_longer zero n out = omega arith
decimal_longer (suc k) n out = ground (arith, decimal_longer k (n / 10) ((b'0' + n % 10) ∷ out))

pub print_lu_pos : (n : ℕ) → 0 < length (print_lu n)
unfolding print_lu
print_lu_pos n = unfold decimal in ground (arith, decimal_longer 19 (n / 10) ((b'0' + n % 10) ∷ []))

-- Reading what was printed gives the number, and goes on behind it.
read_digits-decimal :
    (k n : ℕ) (out : List ℕ)
    → n < 10 ^ suc k
    → read_digits (decimal (suc k) n out) 0 ≡ read_digits out n
unfolding decimal read_digits
read_digits-decimal zero n out h = ground arith
read_digits-decimal (suc k) n out h =
    ground (arith, read_digits-decimal k (n / 10) ((b'0' + n % 10) ∷ out) (omega arith))

decimal-append : (k n : ℕ) (out s : List ℕ) → decimal k n out ++ s ≡ decimal k n (out ++ s)
unfolding decimal
decimal-append zero n out s = refl
decimal-append (suc k) n out s = ground (arith, decimal-append k (n / 10) ((b'0' + n % 10) ∷ out) s)

-- Reading a printed `unsigned long` gives it back, whatever follows, up to the next digit.
pub read_digits-print_lu :
    (n : ℕ) (s : List ℕ) → n < 10 ^ 20 → read_digits (print_lu n ++ s) 0 ≡ read_digits s n
unfolding print_lu
read_digits-print_lu n s h = rw (decimal-append 20 n [] s) (read_digits-decimal 19 n s h)

read_digits_zeros : (k : ℕ) (s : List ℕ) → read_digits (replicate k b'0' ++ s) 0 ≡ read_digits s 0
unfolding read_digits
read_digits_zeros zero s = refl
read_digits_zeros (suc k) s = read_digits_zeros k s

zeros-AllDigits : (k : ℕ) → AllDigits (replicate k b'0')
zeros-AllDigits zero = tt
zeros-AllDigits (suc k) = (refl, zeros-AllDigits k)

pub print_lu-AllDigits : (n : ℕ) → AllDigits (print_lu n)
unfolding print_lu
print_lu-AllDigits n = decimal-AllDigits 20 n [] tt

pub length-print_lu : (j n : ℕ) → n < 10 ^ suc j → length (print_lu n) ≤ suc j
unfolding print_lu
length-print_lu j n h = omega (arith, length-decimal 20 j n [] h)

-- The nanoseconds of a second are printed as nine digits that read as themselves.
pub print_09lu_lem :
    (n : ℕ)
    → n < 10 ^ 9
    → (length (print_09lu n) ≡ 9) × AllDigits (print_09lu n) × (read_digits (print_09lu n) 0 ≡ n)
unfolding print_09lu
print_09lu_lem n h = (
  omega (
    arith,
    length-append (replicate (9 - length (print_lu n)) b'0') (print_lu n),
    length-replicate {A = ℕ} (9 - length (print_lu n)) b'0',
    length-print_lu 8 n h,
  ),
  All-append _ (replicate (9 - length (print_lu n)) b'0') (print_lu n) (zeros-AllDigits _)
      (print_lu-AllDigits n),
  read_digits_zeros (9 - length (print_lu n)) (print_lu n)
      ∙ rw (append-nil) at (read_digits-print_lu n [] (omega arith))
      ∙ unfold read_digits in refl,
)

-- The digits at the front are all counted.
pub count_digits-append :
    (ds s : List ℕ) (n m : ℕ)
    → AllDigits ds
    → m ≡ n + length ds
    → count_digits (ds ++ (dot ∷ s)) n ≡ (m, dot ∷ s)
unfolding count_digits
count_digits-append [] s n m h e = ground arith
count_digits-append (d ∷ ds) s n m h e = ground (arith, count_digits-append ds s (n + 1) m h.1)
