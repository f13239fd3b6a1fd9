-- ===== src/Cpu/Processors.antt =====
-- utility_cpu.c: `get_last_cpu` counts the processors of the system.
use realtime_tests.Prelude.{
  ℕ, zero, suc, ◌+◌, ◌<◌, ◌≡◌, refl, ap, ◌∙◌, Bool, false, some, List, [], ◌∷◌, if◌then◌else◌,
  length, long_mod, arith,
}
use realtime_tests.Prelude.Int.{pos, negsuc, sub_ℕ}
use realtime_tests.File.{InStream, Buffer, Read, returned, out_of_bounds, utility_file_readln}
use realtime_tests.File.Lines.{
  no_buffer, FileRead, ended, call, deliver, read_lines, utility_file_read,
}
use realtime_tests.File.Lines
use realtime_tests.File.Exact.{always, split, IsOpen, feed, utility_file_read-feed}
use realtime_tests.Cpu.{
  is_processor, Counted, counted, crashed, stuck, on_line, count_processors, last_of, get_last_cpu,
}

-- The loop is the one of `utility_file_read` with this callback.
abbrev count_line : List ℕ → ℕ → Bool × ℕ
count_line line n = (false, if is_processor line then n + 1 else n)

abbrev counts : FileRead count_line → Counted
counts (ended (pos _) n) = counted (negsuc 0) n
counts (ended (negsuc e) n) = counted (negsuc e) n
counts Lines.crashed = crashed
counts Lines.stuck = stuck

on_line-deliver :
    (next : InStream → Buffer → ℕ → Counted) (next' : InStream → Buffer → ℕ → FileRead count_line)
    (n : ℕ) (r : Read)
    → ((s : InStream) (b : Buffer) (n : ℕ) → next s b n ≡ counts (next' s b n))
    → on_line next n r ≡ counts (deliver count_line next' n r)
on_line-deliver next next' n (returned (pos v) s b) h = h s b (count_line b.text n).1
on_line-deliver next next' n (returned (negsuc zero) s b) h = refl
on_line-deliver next next' n (returned (negsuc (suc e)) s b) h = refl
on_line-deliver next next' n out_of_bounds h = refl

count_processors-read_lines :
    (fuel : ℕ) (has_memory : ℕ → Bool) (s : InStream) (b : Buffer) (n : ℕ)
    → count_processors fuel has_memory s b n
      ≡ counts (read_lines count_line fuel has_memory 1024 s b n)
unfolding count_processors read_lines
count_processors-read_lines zero has_memory s b n = refl
count_processors-read_lines (suc fuel) has_memory s b n =
    on_line-deliver (count_processors fuel has_memory) (read_lines count_line fuel has_memory 1024)
      n (utility_file_readln has_memory s b 1024) (count_processors-read_lines fuel has_memory)

-- The lines that name a processor.
abbrev pub processors_in : List (List ℕ) → ℕ
processors_in [] = 0
processors_in (l ∷ ls) = (if is_processor l then 1 else 0) + processors_in ls

feed-processors_in :
    (ls : List (List ℕ)) (n : ℕ) → feed count_line ls n ≡ ended (pos 0) (n + processors_in ls)
unfolding feed
feed-processors_in [] n = ground arith
feed-processors_in (l ∷ ls) n =
    ground (arith, feed-processors_in ls n, feed-processors_in ls (n + 1))

-- With memory, on a healthy list of processors that is shorter than 2^64 - 1024 bytes,
-- `get_last_cpu` ends, and returns the number of lines that begin with the word `processor` and a
-- space or a colon, less one.
pub get_last_cpu_lem :
    (s : InStream)
    → IsOpen s
    → length s.rest + 1024 < long_mod
    → get_last_cpu always (some s) ≡ some (sub_ℕ (processors_in (split s.rest)) 1)
unfolding get_last_cpu utility_file_read
get_last_cpu_lem s o small =
    ap last_of (
      count_processors-read_lines (length s.rest + 2) always s no_buffer 0
      ∙ ap counts (
          utility_file_read-feed count_line 1024 s 0 o (omega arith) small
          ∙ feed-processors_in (split s.rest) 0))
    ∙ ground arith
