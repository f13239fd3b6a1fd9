-- ===== src/File.antt =====
-- utility_file.h and utility_file.c: reading lines and blocks from a stream.
pub mod Lines
pub mod Exact
pub mod Bounds
mod Examples
use realtime_tests.Prelude.{
  ℕ, zero, suc, ◌+◌, ◌-◌, Bool, true, false, not, ◌&&◌, ◌||◌, Option, none, some, List, [], ◌∷◌,
  ◌++◌, ◌==◌, leb, if◌then◌else◌, length, take, drop, add_long,
}
use realtime_tests.Prelude.Int.{ℤ, pos, negsuc}

-- A `FILE` open for reading: the bytes ahead, whether the device fails behind them, and the two
-- indicators.
pub record InStream : Type 0 where
  pub rest : List ℕ
  pub broken : Bool
  pub eof : Bool
  pub error : Bool

-- What running out of bytes does to a stream.
abbrev pub exhausted : InStream → InStream
exhausted s =
    if s.broken then record s { rest = []; error = true } else record s { rest = []; eof = true }

abbrev pub newline : ℕ
newline = b'\n'

-- The caller's `*buffer` and `*buffer_len`. The text is what stands before the place of `ptr`.
pub record Buffer : Type 0 where
  pub allocated : Bool
  pub len : ℕ
  pub text : List ℕ

-- How the reading loop stops: at a newline, at the end of the bytes, without memory for a longer
-- buffer, or by a write behind the buffer.
pub data Scan : Type 0 where
  at_newline : Buffer → List ℕ → Scan
  at_end : Buffer → Scan
  no_memory : Buffer → List ℕ → Scan
  overflow : Scan

-- `has_memory` tells of a size whether `realloc` gives it.
unfoldable pub scan_line : (ℕ → Bool) → ℕ → List ℕ → Buffer → Scan
scan_line has_memory inc [] b = at_end b
scan_line has_memory inc (c ∷ rest) b =
    let b' : Buffer = record b { text = b.text ++ (c ∷ []) } in
    let longer : Buffer = record b' { len = add_long b.len inc } in
    let next = (if length b'.text == b.len then longer else b') in
    let more = scan_line has_memory inc rest next in
    if c == newline
    then at_newline b rest
    else if leb b.len (length b.text)
    then overflow
    else if length b'.text == b.len && not (has_memory (add_long b.len inc))
    then no_memory b' rest
    else more

-- What a call returns and leaves, or a write outside the buffer.
pub data Read : Type 0 where
  returned : ℤ → InStream → Buffer → Read
  out_of_bounds : Read

-- The last part of `utility_file_readln`: the NUL, and the test for an error.
unfoldable pub finish_line : InStream → Buffer → Read
finish_line s b =
    if leb b.len (length b.text)
    then out_of_bounds
    else if s.error
    then returned (negsuc 1) s b
    else returned (pos 0) s b

unfoldable pub after_scan : InStream → Scan → Read
unfolding finish_line
after_scan s (at_newline b rest) = finish_line (record s { rest = rest }) b
after_scan s (at_end b) = finish_line (exhausted s) b
after_scan s (no_memory b rest) = returned (negsuc 1) (record s { rest = rest }) b
after_scan s overflow = out_of_bounds

unfoldable pub utility_file_readln : (ℕ → Bool) → InStream → Buffer → ℕ → Read
unfolding scan_line after_scan
utility_file_readln has_memory s b inc =
    let fresh = not b.allocated || b.len == 0 in
    let start : Buffer =
      (if fresh
        then record { allocated = true; len = inc; text = [] }
        else record b { text = [] }) in
    if s.eof
    then returned (negsuc 0) s b
    else if fresh && not (has_memory inc)
    then returned (negsuc 1) s b
    else after_scan s (scan_line has_memory inc s.rest start)

-- `fread (buffer, 1, len, s)`: the bytes read, and the stream after it.
unfoldable pub fread : ℕ → InStream → List ℕ × InStream
fread len s =
    if leb len (length s.rest)
    then (take len s.rest, record s { rest = drop len s.rest })
    else (s.rest, exhausted s)

-- `utility_file_read_bin`: what it returns, the bytes read, `*len`, and the stream.
pub record BinRead : Type 0 where
  pub rc : ℤ
  pub bytes : List ℕ
  pub len : ℕ
  pub stream : InStream

unfoldable pub utility_file_read_bin : InStream → ℕ → BinRead
unfolding fread
utility_file_read_bin s len =
    let (bytes, s') = fread len s in
    if s.eof
    then record { rc = negsuc 0; bytes = []; len = len; stream = s }
    else if length bytes == len
    then record { rc = pos 0; bytes = bytes; len = len; stream = s' }
    else if s'.error
    then record { rc = negsuc 2; bytes = bytes; len = len; stream = s' }
    else record { rc = negsuc 1; bytes = bytes; len = length bytes; stream = s' }
