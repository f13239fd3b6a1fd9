-- ===== src/Cpu/Listed.antt =====
-- utility_cpu.c: the frequencies that the kernel lists are the ones that are read.
use realtime_tests.Prelude.{
  ℕ, suc, ◌+◌, ◌*◌, ◌/◌, ◌%◌, ◌<◌, ◌≡◌, refl, sym, ap, ◌∙◌, true, false, none, some, List, [], ◌∷◌,
  ◌++◌, map, append_assoc, append-nil, leb, length, length-append, All, All-append, long_mod, arith,
}
use realtime_tests.Prelude.Int.{pos}
use realtime_tests.Time.Text.{read_digits, print_lu}
use realtime_tests.Time.Text.Digits.{
  AllDigits, print_lu-AllDigits, print_lu_pos, length-print_lu, read_digits-print_lu,
}
use realtime_tests.File.{InStream, newline}
use realtime_tests.File.Lines.{no_buffer}
use realtime_tests.File.Exact.{always, first_line, readln-ReadsLine}
use realtime_tests.Cpu.{is_space}
use realtime_tests.Cpu.Frequency.{
  c_string, strtoull, pieces, hertz, available, list_of, from_line, cpu_freq_available, current,
  cpu_freq_get, Opens, opened, to_governor, to_speed, userspace, cpu_freq_set, cpu_freq_set_max,
  set_first,
}

abbrev pub space : ℕ
space = b' '

-- The list as the kernel prints it: each frequency in kilohertz, with a space behind it.
unfoldable pub print_list : List ℕ → List ℕ
print_list [] = []
print_list (f ∷ fs) = print_lu f ++ (space ∷ print_list fs)

abbrev pub IsPrintable : List ℕ → Type 0
IsPrintable = All (λ c. leb 32 c ≡ true)

pub first_line-IsPrintable :
    (xs rest : List ℕ) → IsPrintable xs → first_line (xs ++ (newline ∷ rest)) ≡ xs
first_line-IsPrintable [] rest h = ground arith
first_line-IsPrintable (x ∷ xs) rest h = ground (arith, first_line-IsPrintable xs rest h.1)

pub c_string-IsPrintable : (xs : List ℕ) → IsPrintable xs → c_string xs ≡ xs
c_string-IsPrintable [] h = refl
c_string-IsPrintable (x ∷ xs) h = ground (arith, c_string-IsPrintable xs h.1)

AllDigits-IsPrintable : (ds : List ℕ) → AllDigits ds → IsPrintable ds
AllDigits-IsPrintable [] h = tt
AllDigits-IsPrintable (d ∷ ds) h = (ground (arith, h.0), AllDigits-IsPrintable ds h.1)

print_list-IsPrintable : (fs : List ℕ) → IsPrintable (print_list fs)
unfolding print_list
print_list-IsPrintable [] = tt
print_list-IsPrintable (f ∷ fs) =
    All-append (λ c. leb 32 c ≡ true) (print_lu f) (space ∷ print_list fs)
      (AllDigits-IsPrintable (print_lu f) (print_lu-AllDigits f)) (refl, print_list-IsPrintable fs)

-- A run of digits is one piece, up to the space behind it.
pieces-AllDigits :
    (ds rest start : List ℕ)
    → AllDigits ds
    → pieces (ds ++ (space ∷ rest)) start ≡ (start ++ ds) ∷ pieces rest []
unfolding pieces
pieces-AllDigits [] rest start h = ground (arith, append-nil start)
pieces-AllDigits (d ∷ ds) rest start h =
    ground
      (arith, h.0, pieces-AllDigits ds rest (start ++ (d ∷ [])) h.1, append_assoc start (d ∷ []) ds)

pieces-print_list : (fs : List ℕ) → pieces (print_list fs) [] ≡ map print_lu fs
unfolding print_list
pieces-print_list [] = unfold pieces in refl
pieces-print_list (f ∷ fs) =
    pieces-AllDigits (print_lu f) (print_list fs) [] (print_lu-AllDigits f)
    ∙ ap (λ ps. print_lu f ∷ ps) (pieces-print_list fs)

-- A string of digits is no sign and no space.
strtoull-AllDigits :
    (ds : List ℕ)
    → AllDigits ds
    → 0 < length ds
    → read_digits ds 0 < long_mod
    → strtoull ds ≡ read_digits ds 0
unfolding strtoull
strtoull-AllDigits [] h some_digit fits = absurd (omega arith)
strtoull-AllDigits (d ∷ ds) h some_digit fits = ground (arith, h.0)

read_digits-print_lu_whole : (n : ℕ) → n < long_mod → read_digits (print_lu n) 0 ≡ n
unfolding read_digits
read_digits-print_lu_whole n fits =
    ap (λ s. read_digits s 0) (sym (append-nil (print_lu n)))
    ∙ read_digits-print_lu n [] (omega arith)

strtoull-print_lu : (n : ℕ) → n < long_mod → strtoull (print_lu n) ≡ n
strtoull-print_lu n fits =
    let e = read_digits-print_lu_whole n fits in
    strtoull-AllDigits (print_lu n) (print_lu-AllDigits n) (print_lu_pos n) (omega (arith, e)) ∙ e

-- Kilohertz become hertz.
abbrev pub in_hertz : ℕ → ℕ
in_hertz f = f * 1000 % long_mod

map-hertz :
    (fs : List ℕ) → All (λ f. f < long_mod) fs → map hertz (map print_lu fs) ≡ map in_hertz fs
map-hertz [] h = refl
map-hertz (f ∷ fs) h = λ i. (strtoull-print_lu f h.0 i * 1000 % long_mod) ∷ map-hertz fs h.1 i

length-map_print : (fs : List ℕ) → length (map print_lu fs) ≡ length fs
length-map_print [] = refl
length-map_print (f ∷ fs) = ap suc (length-map_print fs)

list_of-print :
    (fs : List ℕ)
    → All (λ f. f < long_mod) fs
    → 0 < length fs
    → list_of true (map print_lu fs) ≡ available (pos (length fs)) (some (map in_hertz fs))
list_of-print [] h some_f = absurd (omega arith)
list_of-print (f ∷ fs) h some_f =
    λ i. available (pos (suc (length-map_print fs i))) (some (map-hertz (f ∷ fs) h i))

-- A line as the kernel writes it, alone on a stream.
abbrev pub file_of : List ℕ → InStream
file_of line = record { rest = line ++ (newline ∷ []); broken = false; eof = false; error = false }

available-line :
    (line : List ℕ)
    → IsPrintable line
    → length line + 1 + 256 < long_mod
    → cpu_freq_available always true (some (file_of line)) ≡ list_of true (pieces line [])
unfolding cpu_freq_available
available-line line h small =
    let read =
      readln-ReadsLine 256 (file_of line) no_buffer
        (record { whole = refl; more = refl; good = refl }) (omega arith)
        (omega (arith, length-append line (newline ∷ []))) in
    let same = read.text ∙ first_line-IsPrintable line [] h in
    ap (from_line true) read.returns
    ∙ ap (λ t. list_of true (pieces (c_string t) [])) same
    ∙ ap (λ t. list_of true (pieces t [])) (c_string-IsPrintable line h)

-- With memory, a healthy file with one or more frequencies below 2^64 kilohertz, each with a
-- space behind it and a newline behind all, of less than 2^64 bytes by 257 at least, is answered
-- by all of them, in hertz modulo 2^64 and in order; and `cpu_freq_set_max` then chooses the
-- first one.
pub cpu_freq_available-print_list :
    (f : ℕ) (fs : List ℕ)
    → All (λ g. g < long_mod) (f ∷ fs)
    → length (print_list (f ∷ fs)) + 1 + 256 < long_mod
    → (cpu_freq_available always true (some (file_of (print_list (f ∷ fs))))
        ≡ available (pos (length (f ∷ fs))) (some (map in_hertz (f ∷ fs))))
      × ((governor speed : Opens)
          → cpu_freq_set_max always true (some (file_of (print_list (f ∷ fs)))) governor speed
            ≡ some (cpu_freq_set governor speed (in_hertz f)))
unfolding cpu_freq_set_max
cpu_freq_available-print_list f fs h small =
    let e =
      available-line (print_list (f ∷ fs)) (print_list-IsPrintable (f ∷ fs)) small
      ∙ ap (list_of true) (pieces-print_list (f ∷ fs))
      ∙ list_of-print (f ∷ fs) h (omega arith) in
    (e, λ governor speed. ap (set_first governor speed) e)

pieces_none : (line start : List ℕ) → All (λ c. is_space c ≡ false) line → pieces line start ≡ []
unfolding pieces
pieces_none [] start h = refl
pieces_none (c ∷ cs) start h = ground (arith, h.0, pieces_none cs (start ++ (c ∷ [])) h.1)

-- With memory, a printable line without a space in a healthy file, also one that holds a
-- frequency, is answered by no frequency at all, and `cpu_freq_set_max` then reads through the
-- null pointer that stands for the empty list. The line is shorter than 2^64 bytes by 257 at
-- least.
pub cpu_freq_set_max_null :
    (line : List ℕ)
    → IsPrintable line
    → All (λ c. is_space c ≡ false) line
    → length line + 1 + 256 < long_mod
    → (cpu_freq_available always true (some (file_of line)) ≡ available (pos 0) none)
      × ((governor speed : Opens)
          → cpu_freq_set_max always true (some (file_of line)) governor speed ≡ none)
unfolding cpu_freq_set_max
cpu_freq_set_max_null line h no_space small =
    let e = available-line line h small ∙ ap (list_of true) (pieces_none line [] no_space) in
    (e, λ governor speed. ap (set_first governor speed) e)

-- The rounding to kilohertz, and back: what `cpu_freq_set` writes of a frequency, `cpu_freq_get`
-- reads.
pub cpu_freq_set-get :
    (new_freq : ℕ)
    → new_freq < long_mod
    → (line : List ℕ) × (cpu_freq_set opened opened new_freq
        ≡ (pos 0, to_governor userspace ∷ to_speed line ∷ []))
      × (cpu_freq_get always (some (file_of line)) ≡ some (new_freq / 1000 * 1000))
unfolding cpu_freq_set cpu_freq_get
cpu_freq_set-get new_freq fits =
    let line = print_lu (new_freq / 1000) in
    let plain = AllDigits-IsPrintable line (print_lu-AllDigits (new_freq / 1000)) in
    (
      line,
      refl,
      let short = length-print_lu 19 (new_freq / 1000) (omega arith) in
          let read =
            readln-ReadsLine 32 (file_of line) no_buffer
              (record { whole = refl; more = refl; good = refl }) (omega arith)
              (omega (arith, short, length-append line (newline ∷ []))) in
          ap current read.returns
          ∙ ap (λ t. some (hertz (c_string t))) (read.text ∙ first_line-IsPrintable line [] plain)
          ∙ ap (λ t. some (hertz t)) (c_string-IsPrintable line plain)
          ∙ ap (λ n. some (n * 1000 % long_mod)) (strtoull-print_lu (new_freq / 1000) (omega arith))
          ∙ ap some (omega arith),
    )
