-- ===== src/Time/Text.antt =====
-- utility_time.h: the textual form of a time, printed and parsed. A string is the list of its
-- bytes, without the NUL that ends it.
pub mod Digits
pub mod RoundTrip
use realtime_tests.Prelude.{
  ℕ, zero, suc, ◌+◌, ◌-◌, ◌*◌, ◌/◌, ◌%◌, ◌^◌, Bool, ◌&&◌, ◌||◌, Option, none, some, List, [], ◌∷◌,
  ◌++◌, ◌==◌, ltb, leb, if◌then◌else◌, length, set, take, replicate, min,
}
use realtime_tests.Time.{Timespec, UtilityTime, timespec}

abbrev pub dot : ℕ
dot = b'.'

abbrev pub is_digit : ℕ → Bool
is_digit c = leb b'0' c && leb c b'9'

-- The decimal digits of a number below `10 ^ k`, put before `out`.
unfoldable pub decimal : ℕ → ℕ → List ℕ → List ℕ
decimal zero n out = out
decimal (suc k) n out =
    let more = decimal k (n / 10) ((b'0' + n % 10) ∷ out) in
    if ltb n 10 then (b'0' + n) ∷ out else more

-- `%lu`: twenty digits hold every `unsigned long`.
unfoldable pub print_lu : ℕ → List ℕ
unfolding decimal
print_lu n = decimal 20 n []

-- `%09lu`
unfoldable pub print_09lu : ℕ → List ℕ
unfolding print_lu
print_09lu n = replicate (9 - length (print_lu n)) b'0' ++ print_lu n

-- What the format "%lu.%09lu" prints.
unfoldable pub format_time : UtilityTime → List ℕ
unfolding print_lu print_09lu
format_time a = print_lu a.t.tv_sec ++ (dot ∷ print_09lu a.t.tv_nsec)

-- `to_file_string`, and what the stream holds after it.
unfoldable pub to_file_string : UtilityTime → List ℕ → List ℕ
unfolding format_time
to_file_string a out_stream = out_stream ++ format_time a

-- What `to_string` leaves in the buffer, and what it returns.
unfoldable pub to_string : UtilityTime → ℕ → List ℕ × ℕ
unfolding format_time
to_string a buffer_len =
    let req_len = length (format_time a) in
    (take (buffer_len - 1) (format_time a), if ltb req_len buffer_len then 0 else req_len + 1)

-- `has_memory n` tells whether `malloc (n)` succeeds.
unfoldable pub to_string_dyn : (ℕ → Bool) → UtilityTime → Option (List ℕ)
unfolding to_string
to_string_dyn has_memory a =
    let result_len = (to_string a 1).1 in
    if has_memory result_len then some ((to_string a result_len).0) else none

-- The digits at the front of a string, read as a number onto `n`.
unfoldable pub read_digits : List ℕ → ℕ → ℕ
read_digits [] n = n
read_digits (c ∷ str) n =
    let more = read_digits str (n * 10 + (c - b'0')) in if is_digit c then more else n

-- `strtoull (str, NULL, 10)` at a string that begins with a digit.
unfoldable pub strtoull : List ℕ → ℕ
unfolding read_digits
strtoull str = min (read_digits str 0) (2 ^ 64 - 1)

-- `while (isdigit (*ptr))`: the digits counted and the string behind them.
unfoldable pub count_digits : List ℕ → ℕ → ℕ × List ℕ
count_digits [] n = (n, [])
count_digits (c ∷ str) n =
    let more = count_digits str (n + 1) in if is_digit c then more else (n, c ∷ str)

-- The loop that copies at most nine digits into the buffer.
unfoldable pub copy_digits : List ℕ → List ℕ → ℕ → List ℕ × List ℕ × ℕ
copy_digits [] buffer n = (buffer, [], n)
copy_digits (c ∷ str) buffer n =
    let more = copy_digits str (set buffer n c) (n + 1) in
    if is_digit c && ltb n 9 then more else (buffer, c ∷ str, n)

abbrev pub nine_zeros : List ℕ
nine_zeros = b'0' ∷ b'0' ∷ b'0' ∷ b'0' ∷ b'0' ∷ b'0' ∷ b'0' ∷ b'0' ∷ b'0' ∷ []

-- The nanosecond part, at the string behind the digits of the second part.
unfoldable pub fraction : List ℕ → ℕ × List ℕ
unfolding copy_digits strtoull
fraction [] = (0, [])
fraction (c ∷ str) =
    let (buffer, rest, count) = copy_digits str nine_zeros 0 in
    if c == dot then (strtoull buffer, (if count == 0 then c ∷ str else rest)) else (0, c ∷ str)

-- `sizeof (tv_sec) * 8 / 10 * 3`
abbrev pub longest_second_digit_count : ℕ
longest_second_digit_count = 8 * 8 / 10 * 3

-- The fields written, and the string that `*endptr` is left at.
unfoldable pub string_to_utility_time : List ℕ → Timespec × List ℕ
unfolding count_digits strtoull fraction
string_to_utility_time str =
    let (second_digit_count, ptr) = count_digits str 0 in
    let (nsec, rest) = fraction ptr in
    if second_digit_count == 0 || ltb longest_second_digit_count second_digit_count
    then (timespec 0 0, str)
    else (timespec (strtoull str) nsec, rest)
