-- ===== src/Time/Text/RoundTrip.antt =====
-- Printing a time and parsing it again, and the strings that the parser refuses.
use realtime_tests.Prelude.{
  lt→ltb, not_lt→ltb, ◌⊎◌, ◌∙◌, append_assoc, ℕ, zero, suc, ◌+◌, ◌-◌, ◌^◌, ◌<◌, ◌≤◌, ◌≡◌, refl, ap,
  List, [], ◌∷◌, ◌++◌, length, arith, length-append, set, if◌then◌else◌, some, none, take-length,
  Bool,
}
use realtime_tests.Time.{UtilityTime, timespec, billion}
use realtime_tests.Time.Text.{
  dot, print_lu, print_09lu, format_time, to_string, to_string_dyn, read_digits, strtoull,
  count_digits, copy_digits, nine_zeros, fraction, string_to_utility_time,
}
use realtime_tests.Time.Text.Digits.{
  AllDigits, print_lu_pos, read_digits-print_lu, print_lu-AllDigits, length-print_lu,
  print_09lu_lem, count_digits-append,
}

set-append :
    (front : List ℕ) (z c : ℕ) (back : List ℕ) (n : ℕ)
    → n ≡ length front
    → set (front ++ (z ∷ back)) n c ≡ (front ++ (c ∷ [])) ++ back
set-append [] z c back zero e = refl
set-append [] z c back (suc n) e = absurd (omega arith)
set-append (x ∷ front) z c back zero e = absurd (omega arith)
set-append (x ∷ front) z c back (suc n) e =
    ap (λ l. x ∷ l) (set-append front z c back n (omega arith))

-- Nine digits fill the buffer, and the loop stops behind them.
copy_digits_stops : (s buffer : List ℕ) → copy_digits s buffer 9 ≡ (buffer, s, 9)
unfolding copy_digits
copy_digits_stops [] buffer = refl
copy_digits_stops (c ∷ s) buffer = ground arith

copy_digits-append :
    (ds s front back : List ℕ) (n : ℕ)
    → AllDigits ds
    → length ds ≡ length back
    → n ≡ length front
    → n + length ds ≡ 9
    → copy_digits (ds ++ s) (front ++ back) n ≡ (front ++ ds, s, 9)
unfolding copy_digits
copy_digits-append [] s front [] n h eb ef e =
    let e9 : n ≡ 9 = omega arith in rw e9 (copy_digits_stops s (front ++ []))
copy_digits-append [] s front (z ∷ back) n h eb ef e = absurd (omega arith)
copy_digits-append (d ∷ ds) s front [] n h eb ef e = absurd (omega arith)
copy_digits-append (d ∷ ds) s front (z ∷ back) n h eb ef e = ground (
  arith,
  set-append front z d back n ef,
  append_assoc front (d ∷ []) ds,
  length-append front (d ∷ []),
  copy_digits-append ds s (front ++ (d ∷ [])) back (n + 1) h.1,
)

fraction-print_09lu :
    (n : ℕ) (s : List ℕ) → n < 10 ^ 9 → fraction (dot ∷ (print_09lu n ++ s)) ≡ (n, s)
unfolding fraction strtoull
fraction-print_09lu n s h =
    let (len, digits, reads) = print_09lu_lem n h in
    ground (
      arith,
      len,
      reads,
      copy_digits-append (print_09lu n) s [] nine_zeros 0 digits len refl (omega (arith, len)),
    )

read_digits-dot : (s : List ℕ) (n : ℕ) → read_digits (dot ∷ s) n ≡ n
unfolding read_digits
read_digits-dot s n = refl

strtoull_lem : (str : List ℕ) (n : ℕ) → read_digits str 0 ≡ n → n < 2 ^ 64 → strtoull str ≡ n
unfolding strtoull
strtoull_lem str n e h = omega arith

-- The parse in terms of its parts.
string_to_utility_time_parts :
    (str ptr rest : List ℕ) (count sec nsec : ℕ)
    → count_digits str 0 ≡ (count, ptr)
    → 0 < count
    → count ≤ 18
    → fraction ptr ≡ (nsec, rest)
    → read_digits str 0 ≡ sec
    → sec < 2 ^ 64
    → string_to_utility_time str ≡ (timespec sec nsec, rest)
unfolding string_to_utility_time
string_to_utility_time_parts str ptr rest count sec nsec ec pos le ef er small =
    ground (arith, strtoull_lem str sec er small)

-- A proper time below 10 ^ 18 seconds is parsed back from its printed form, whatever follows it,
-- and the parser stops right behind it.
pub string_to_utility_time-format_time :
    (a : UtilityTime) (s : List ℕ)
    → a.t.tv_sec < 10 ^ 18
    → a.t.tv_nsec < billion
    → string_to_utility_time (format_time a ++ s) ≡ (a.t, s)
unfolding format_time
string_to_utility_time-format_time a s hs hn =
    let tail : List ℕ = print_09lu a.t.tv_nsec ++ s in
    rw (append_assoc (print_lu a.t.tv_sec) (dot ∷ print_09lu a.t.tv_nsec) s) (
      string_to_utility_time_parts (print_lu a.t.tv_sec ++ (dot ∷ tail)) (dot ∷ tail) s
        (length (print_lu a.t.tv_sec)) a.t.tv_sec a.t.tv_nsec
        (count_digits-append (print_lu a.t.tv_sec) tail 0 _ (print_lu-AllDigits a.t.tv_sec)
          (omega arith))
        (print_lu_pos a.t.tv_sec) (length-print_lu 17 a.t.tv_sec hs)
        (fraction-print_09lu a.t.tv_nsec s hn)
        (read_digits-print_lu a.t.tv_sec (dot ∷ tail) (omega arith)
          ∙ read_digits-dot tail a.t.tv_sec)
        (omega arith))

-- A number of seconds with no digit or with more than eighteen digits is not converted, though a
-- `time_t` holds some of the latter: the time is zero and nothing is consumed.
pub string_to_utility_time_refused :
    (ds s : List ℕ)
    → AllDigits ds
    → ((length ds ≡ 0) ⊎ (18 < length ds))
    → string_to_utility_time (ds ++ (dot ∷ s)) ≡ (timespec 0 0, ds ++ (dot ∷ s))
unfolding string_to_utility_time
string_to_utility_time_refused ds s h size =
    ground (arith, count_digits-append ds s 0 (length ds) h (omega arith))

length-format_time : (a : UtilityTime) → 0 < length (format_time a)
unfolding format_time
length-format_time a =
    omega (arith, length-append (print_lu a.t.tv_sec) (dot ∷ print_09lu a.t.tv_nsec))

-- `to_string` returns zero exactly where the buffer holds the whole text and its NUL; else it
-- returns the size that is needed, and with a buffer of that size it succeeds.
pub to_string_size :
    (a : UtilityTime) (buffer_len : ℕ)
    → let need = length (format_time a) + 1 in
      (need ≤ buffer_len → to_string a buffer_len ≡ (format_time a, 0))
      × (buffer_len < need → (to_string a buffer_len).1 ≡ need)
      × (to_string a need ≡ (format_time a, 0))
unfolding to_string
to_string_size a buffer_len = (
  λ h. fits buffer_len h,
  λ h. rw (not_lt→ltb (length (format_time a)) buffer_len (omega arith)),
  fits (length (format_time a) + 1) (omega arith),
)
  where
    fits : (n : ℕ) → length (format_time a) + 1 ≤ n → to_string a n ≡ (format_time a, 0)
    fits n h = rw (
      take-length (n - 1) (format_time a) (omega arith),
      lt→ltb (length (format_time a)) n (omega arith),
    )

-- `to_string_dyn` asks `malloc` once, for the size of the text and its NUL, and returns the whole
-- text if it gets that and NULL if not.
pub to_string_dyn_lem :
    (has_memory : ℕ → Bool) (a : UtilityTime)
    → to_string_dyn has_memory a
      ≡ (if has_memory (length (format_time a) + 1) then some (format_time a) else none)
unfolding to_string_dyn
to_string_dyn_lem has_memory a =
    let (_, small, whole) = to_string_size a 1 in
    rw (small (omega (arith, length-format_time a)), ap (λ (p : List ℕ × ℕ). p.0) whole)
