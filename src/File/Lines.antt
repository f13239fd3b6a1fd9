-- ===== src/File/Lines.antt =====
-- utility_file.c: `utility_file_read`, which hands a stream to a callback line by line.
use realtime_tests.Prelude.{ℕ, zero, suc, ◌+◌, Bool, false, List, [], if◌then◌else◌, length}
use realtime_tests.Prelude.Int.{ℤ, pos, negsuc}
use realtime_tests.File.{InStream, Buffer, Read, returned, out_of_bounds, utility_file_readln}

abbrev pub no_buffer : Buffer
no_buffer = record { allocated = false; len = 0; text = [] }

-- The callback with the state behind its `args`: whether it returned non-zero.
module _ {S : Type 0} (read_fn : List ℕ → S → Bool × S) where
  -- How a run ends; `stuck` is a run out of fuel.
  pub data FileRead : Type 0 where
    ended : ℤ → S → FileRead
    crashed : FileRead
    stuck : FileRead

  abbrev pub call : List ℕ → S → (S → FileRead) → FileRead
  call text st next =
      let (stop, st') = read_fn text st in
      let more = next st' in if stop then ended (negsuc 0) st' else more

  -- What the loop does with a line read, and how it goes on.
  abbrev pub deliver : (InStream → Buffer → S → FileRead) → S → Read → FileRead
  deliver next st out_of_bounds = crashed
  deliver next st (returned (pos _) s b) = call b.text st (next s b)
  deliver next st (returned (negsuc zero) s b) = ended (pos 0) st
  deliver next st (returned (negsuc (suc _)) s b) = ended (negsuc 1) st

  unfoldable pub read_lines : ℕ → (ℕ → Bool) → ℕ → InStream → Buffer → S → FileRead
  unfolding utility_file_readln
  read_lines zero has_memory inc s b st = stuck
  read_lines (suc fuel) has_memory inc s b st =
      deliver (read_lines fuel has_memory inc) st (utility_file_readln has_memory s b inc)

  -- Each round takes a newline or reaches the end, and one more sees that.
  unfoldable pub utility_file_read : (ℕ → Bool) → InStream → ℕ → S → FileRead
  unfolding read_lines
  utility_file_read has_memory s inc st =
      read_lines (length s.rest + 2) has_memory inc s no_buffer st
