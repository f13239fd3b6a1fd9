-- ===== src/Cpu/Frequency.antt =====
-- utility_cpu.c: the frequencies of a processor, in the files of the kernel.
use realtime_tests.Prelude.{
  ℕ, zero, suc, ◌-◌, ◌*◌, ◌/◌, ◌%◌, Bool, Option, none, some, List, [], ◌∷◌, ◌++◌, map, ◌==◌, ltb,
  if◌then◌else◌, length, long_mod,
}
use realtime_tests.Prelude.Int.{ℤ, pos, negsuc}
use realtime_tests.Time.Text.{read_digits, print_lu}
use realtime_tests.File.{InStream, Read, returned, out_of_bounds, utility_file_readln}
use realtime_tests.File.Lines.{no_buffer}
use realtime_tests.Cpu.{is_space}

-- The string in a buffer: what stands before its first NUL.
abbrev pub c_string : List ℕ → List ℕ
c_string [] = []
c_string (c ∷ cs) = if c == 0 then [] else c ∷ c_string cs

abbrev pub skip_spaces : List ℕ → List ℕ
skip_spaces [] = []
skip_spaces (c ∷ cs) = if is_space c then skip_spaces cs else c ∷ cs

-- A number too large is answered by the largest one; a minus sign negates what fits.
abbrev pub saturate : ℕ → ℕ
saturate n = if ltb n long_mod then n else long_mod - 1

abbrev pub signed_digits : List ℕ → ℕ
signed_digits [] = 0
signed_digits (c ∷ cs) =
    let n = read_digits cs 0 in
    if c == b'+'
    then saturate n
    else if c == b'-'
    then if ltb n long_mod then (long_mod - n) % long_mod else long_mod - 1
    else saturate (read_digits (c ∷ cs) 0)

-- `strtoull (s, NULL, 10)`
unfoldable pub strtoull : List ℕ → ℕ
strtoull s = signed_digits (skip_spaces s)

-- The strings that the loop cuts off, each at the space behind it; what follows the last space is
-- not one.
unfoldable pub pieces : List ℕ → List ℕ → List (List ℕ)
pieces [] start = []
pieces (c ∷ cs) start =
    let next = pieces cs [] in
    let longer = pieces cs (start ++ (c ∷ [])) in if is_space c then start ∷ next else longer

abbrev pub hertz : List ℕ → ℕ
hertz s = strtoull s * 1000 % long_mod

-- What `cpu_freq_available` stores as the length, and the list that it returns, `none` for NULL;
-- or a write through a null pointer.
pub data Available : Type 0 where
  available : ℤ → Option (List ℕ) → Available
  crashed : Available

abbrev pub list_of : Bool → List (List ℕ) → Available
list_of has_list [] = available (pos 0) none
list_of has_list (p ∷ ps) =
    if has_list then available (pos (length (p ∷ ps))) (some (map hertz (p ∷ ps))) else crashed

abbrev pub from_line : Bool → Read → Available
from_line has_list out_of_bounds = crashed
from_line has_list (returned (pos _) s b) = list_of has_list (pieces (c_string b.text) [])
from_line has_list (returned (negsuc zero) s b) = available (pos 0) none
from_line has_list (returned (negsuc (suc _)) s b) = available (negsuc 0) none

-- `has_memory` is asked by `realloc` for the buffer, `has_list` by `malloc` for the list.
unfoldable pub cpu_freq_available : (ℕ → Bool) → Bool → Option InStream → Available
cpu_freq_available has_memory has_list none = available (negsuc 0) none
cpu_freq_available has_memory has_list (some s) =
    from_line has_list (utility_file_readln has_memory s no_buffer 256)

abbrev pub current : Read → Option ℕ
current out_of_bounds = none
current (returned (pos _) s b) = some (hertz (c_string b.text))
current (returned (negsuc _) s b) = some 0

-- `none` is a run that does not end well.
unfoldable pub cpu_freq_get : (ℕ → Bool) → Option InStream → Option ℕ
cpu_freq_get has_memory none = some 0
cpu_freq_get has_memory (some s) = current (utility_file_readln has_memory s no_buffer 32)

-- How `fopen (path, "w")` answers: EACCES apart from other errors.
pub data Opens : Type 0 where
  opened refused failing : Opens

-- What is written: a line of text for the governor or for the speed.
pub data Write : Type 0 where
  to_governor : List ℕ → Write
  to_speed : List ℕ → Write

abbrev pub userspace : List ℕ
userspace = b'u' ∷ b's' ∷ b'e' ∷ b'r' ∷ b's' ∷ b'p' ∷ b'a' ∷ b'c' ∷ b'e' ∷ []

unfoldable pub cpu_freq_set : Opens → Opens → ℕ → ℤ × List Write
cpu_freq_set refused speed new_freq = (negsuc 1, [])
cpu_freq_set failing speed new_freq = (negsuc 0, [])
cpu_freq_set opened refused new_freq = (negsuc 1, [])
cpu_freq_set opened failing new_freq = (negsuc 0, [])
cpu_freq_set opened opened new_freq =
    (pos 0, to_governor userspace ∷ to_speed (print_lu (new_freq / 1000)) ∷ [])

-- `none` is a read through a null pointer.
abbrev pub set_first : Opens → Opens → Available → Option (ℤ × List Write)
set_first governor speed crashed = none
set_first governor speed (available (negsuc n) list) = some (negsuc 0, [])
set_first governor speed (available (pos n) none) = none
set_first governor speed (available (pos n) (some [])) = none
set_first governor speed (available (pos n) (some (f ∷ fs))) = some (cpu_freq_set governor speed f)

unfoldable pub cpu_freq_set_max :
    (ℕ → Bool) → Bool → Option InStream → Opens → Opens → Option (ℤ × List Write)
cpu_freq_set_max has_memory has_list file governor speed =
    set_first governor speed (cpu_freq_available has_memory has_list file)
