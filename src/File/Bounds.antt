-- ===== src/File/Bounds.antt =====
-- utility_file.c: no write of `utility_file_readln` lies outside its buffer, whatever `realloc` and
-- the stream do.
use realtime_tests.Prelude.{
  ℕ, ◌+◌, ◌%◌, ◌<◌, ◌≡◌, ◌≢◌, Bool, true, not, ◌||◌, List, [], ◌∷◌, ◌++◌, ◌==◌, if◌then◌else◌,
  length, length-append, long_mod, add_long, arith,
}
use realtime_tests.File.{
  InStream, Buffer, Scan, at_newline, at_end, no_memory, overflow, scan_line, out_of_bounds,
  finish_line, after_scan, utility_file_readln,
}

-- A scan that ended leaves room for the NUL.
abbrev HasRoom : Scan → Type 0
HasRoom (at_newline b rest) = length b.text < b.len
HasRoom (at_end b) = length b.text < b.len
HasRoom (no_memory b rest) = Unit
HasRoom overflow = ⊥

scan_line-HasRoom :
    (has_memory : ℕ → Bool) (inc : ℕ) (r : List ℕ) (b : Buffer)
    → 0 < inc
    → length b.text < b.len
    → length b.text + length r + inc < long_mod
    → HasRoom (scan_line has_memory inc r b)
unfolding scan_line add_long
scan_line-HasRoom has_memory inc [] b some_inc room small = room
scan_line-HasRoom has_memory inc (c ∷ r) b some_inc room small =
    let b1 : Buffer = record b { text = b.text ++ (c ∷ []) } in
    let b2 : Buffer =
      (if length b1.text == b.len then record b1 { len = (b.len + inc) % long_mod } else b1) in
    let longer : length b1.text ≡ length b.text + 1 = length-append b.text (c ∷ []) in
    let ih = scan_line-HasRoom has_memory inc r b2 some_inc (ground arith) (ground arith) in
    ground (arith, ih)

after_scan-in_bounds : (s : InStream) (x : Scan) → HasRoom x → after_scan s x ≢ out_of_bounds
unfolding after_scan finish_line
after_scan-in_bounds s (at_newline b rest) h = ground arith
after_scan-in_bounds s (at_end b) h = ground arith
after_scan-in_bounds s (no_memory b rest) h = ground arith
after_scan-in_bounds s overflow h = absurd h

-- With a positive increment, on a stream that is shorter than 2^64 bytes by the increment at
-- least, `utility_file_readln` never writes outside its buffer, the NUL included, whether
-- `realloc` fails at any point or the stream breaks.
pub utility_file_readln-in_bounds :
    (has_memory : ℕ → Bool) (s : InStream) (b : Buffer) (inc : ℕ)
    → 0 < inc
    → length s.rest + inc < long_mod
    → utility_file_readln has_memory s b inc ≢ out_of_bounds
unfolding utility_file_readln
utility_file_readln-in_bounds has_memory s b inc some_inc small =
    let start : Buffer =
      (if not b.allocated || b.len == 0
        then record { allocated = true; len = inc; text = [] }
        else record b { text = [] }) in
    let room =
      scan_line-HasRoom has_memory inc s.rest start some_inc (ground arith) (ground arith) in
    ground (arith, after_scan-in_bounds s (scan_line has_memory inc s.rest start) room)
