-- ===== src/Cpu.antt =====
-- utility_cpu.c: the processors that a thread may run on.
pub mod Processors
pub mod Frequency
pub mod Listed
pub mod Governor
pub mod Busyloop
pub mod Search
mod Examples
use realtime_tests.Prelude.{
  ℕ, zero, suc, ◌+◌, Bool, true, false, not, ◌&&◌, ◌||◌, Option, none, some, List, [], ◌∷◌, ◌==◌,
  leb, if◌then◌else◌, length, take, get_elem?,
}
use realtime_tests.Prelude.Int.{ℤ, pos, negsuc, sub_ℕ}
use realtime_tests.File.{InStream, Buffer, Read, returned, out_of_bounds, utility_file_readln}
use realtime_tests.File.Lines.{no_buffer}

-- `isspace`
abbrev pub is_space : ℕ → Bool
is_space c = c == b' ' || (leb 9 c && leb c 13)

abbrev pub equal : List ℕ → List ℕ → Bool
equal [] [] = true
equal (x ∷ xs) (y ∷ ys) = x == y && equal xs ys
equal _ _ = false

abbrev pub keyword : List ℕ
keyword = b'p' ∷ b'r' ∷ b'o' ∷ b'c' ∷ b'e' ∷ b's' ∷ b's' ∷ b'o' ∷ b'r' ∷ []

-- The NUL behind a line is no space and no colon.
abbrev pub ends_keyword : Option ℕ → Bool
ends_keyword none = false
ends_keyword (some c) = is_space c || c == b':'

unfoldable pub is_processor : List ℕ → Bool
is_processor line =
    equal (take (length keyword) line) keyword && ends_keyword (get_elem? line (length keyword))

-- How the loop of `get_last_cpu` ends: with the last `rc` and the count, or not.
pub data Counted : Type 0 where
  counted : ℤ → ℕ → Counted
  crashed : Counted
  stuck : Counted

abbrev pub on_line : (InStream → Buffer → ℕ → Counted) → ℕ → Read → Counted
on_line next n out_of_bounds = crashed
on_line next n (returned (pos _) s b) = next s b (if is_processor b.text then n + 1 else n)
on_line next n (returned (negsuc zero) s b) = counted (negsuc 0) n
on_line next n (returned (negsuc (suc _)) s b) = counted (negsuc 1) n

unfoldable pub count_processors : ℕ → (ℕ → Bool) → InStream → Buffer → ℕ → Counted
count_processors zero has_memory s b n = stuck
count_processors (suc fuel) has_memory s b n =
    on_line (count_processors fuel has_memory) n (utility_file_readln has_memory s b 1024)

abbrev pub last_of : Counted → Option ℤ
last_of (counted (negsuc (suc zero)) n) = some (negsuc 0)
last_of (counted rc n) = some (sub_ℕ n 1)
last_of crashed = none
last_of stuck = none

-- `get_last_cpu`; `cpuinfo` is the open file, if it can be opened. `none` is a run that does not
-- end well.
unfoldable pub get_last_cpu : (ℕ → Bool) → Option InStream → Option ℤ
get_last_cpu has_memory none = some (negsuc 0)
get_last_cpu has_memory (some cpuinfo) =
    last_of (count_processors (length cpuinfo.rest + 2) has_memory cpuinfo no_buffer 0)

-- The processors up to a number, as `CPU_SET` adds them.
abbrev pub up_to : ℕ → List ℕ
up_to zero = []
up_to (suc n) = n ∷ up_to n

-- `pthread_setaffinity_np` over the state of the kernel: whether it succeeds.
module _ {W : Type 0} (setaffinity : List ℕ → W → Bool × W) where
  unfoldable pub lock_me_to_cpu : ℕ → W → ℤ × W
  lock_me_to_cpu which_cpu w =
      let (ok, w') = setaffinity (which_cpu ∷ []) w in (if ok then pos 0 else negsuc 0, w')

  -- The argument is what `get_last_cpu` returned.
  unfoldable pub unlock_me : ℤ → W → ℤ × W
  unlock_me (pos last_cpu_id) w =
      let (ok, w') = setaffinity (up_to (last_cpu_id + 1)) w in (if ok then pos 0 else negsuc 0, w')
  unlock_me (negsuc n) w = (negsuc 0, w)
