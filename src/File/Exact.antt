-- ===== src/File/Exact.antt =====
-- utility_file.c: which lines are read, that the buffer is never overrun, and blocks of bytes.
use realtime_tests.Prelude.{
  ℕ, zero, suc, ◌+◌, ◌%◌, ◌<◌, ◌≤◌, ◌≡◌, refl, sym, ap, ◌∙◌, Bool, true, false, not, ◌||◌, Option,
  none, some, Option-cases, inl, inr, List, [], ◌∷◌, ◌++◌, append_assoc, append-nil, ◌==◌,
  if◌then◌else◌, length, length-append, add_long, long_mod, arith,
}
use realtime_tests.Prelude.Int.{pos}
use realtime_tests.File.{
  InStream, exhausted, newline, Buffer, at_newline, at_end, scan_line, returned, finish_line,
  after_scan, utility_file_readln,
}
use realtime_tests.File.Lines.{
  no_buffer, FileRead, ended, call, deliver, read_lines, utility_file_read,
}

-- The bytes up to the first newline, and those behind it.
abbrev pub first_line : List ℕ → List ℕ
first_line [] = []
first_line (c ∷ r) = if c == newline then [] else c ∷ first_line r

abbrev pub after_line : List ℕ → Option (List ℕ)
after_line [] = none
after_line (c ∷ r) = if c == newline then some r else after_line r

abbrev push : ℕ → List (List ℕ) → List (List ℕ)
push c [] = (c ∷ []) ∷ []
push c (l ∷ ls) = (c ∷ l) ∷ ls

-- A text cut at its newlines: one line more than there are newlines.
unfoldable pub split : List ℕ → List (List ℕ)
split [] = [] ∷ []
split (c ∷ r) = if c == newline then [] ∷ split r else push c (split r)

abbrev rest_lines : Option (List ℕ) → List (List ℕ)
rest_lines none = []
rest_lines (some r) = split r

split_lem : (r : List ℕ) → split r ≡ first_line r ∷ rest_lines (after_line r)
unfolding split
split_lem [] = refl
split_lem (c ∷ r) = ground (arith, split_lem r)

length-after_line : (r rest : List ℕ) → after_line r ≡ some rest → length rest < length r
length-after_line [] rest e = cc
length-after_line (c ∷ r) rest e = ground (arith, length-after_line r rest)

abbrev pub always : ℕ → Bool
always n = true

-- The scan of `r` from a buffer with room leaves the first line behind what stood there, and room
-- for the NUL.
record Scans (inc : ℕ) (r : List ℕ) (b : Buffer) : Type 0 where
  b' : Buffer
  stops :
      scan_line always inc r b
      ≡ elim (after_line r) [ none ↦ at_end b' | some rest ↦ at_newline b' rest ]
  text : b'.text ≡ b.text ++ first_line r
  room : length b'.text < b'.len

scan_line-Scans :
    (inc : ℕ) (r : List ℕ) (b : Buffer)
    → 0 < inc
    → length b.text < b.len
    → length b.text + length r + inc < long_mod
    → Scans inc r b
unfolding scan_line add_long
scan_line-Scans inc [] b some_inc room small = record {
  b' = b;
  stops = refl;
  text = sym (append-nil b.text);
  room = room;
}
scan_line-Scans inc (c ∷ r) b some_inc room small =
    let b1 : Buffer = record b { text = b.text ++ (c ∷ []) } in
    let b2 : Buffer =
      (if length b1.text == b.len then record b1 { len = (b.len + inc) % long_mod } else b1) in
    let longer : length b1.text ≡ length b.text + 1 = length-append b.text (c ∷ []) in
    let ih = scan_line-Scans inc r b2 some_inc (ground arith) (ground arith) in
    record {
      b' = (if c == newline then b else ih.b');
      stops = ground (arith, ih.stops);
      text =
          ground (arith, ih.text, append-nil b.text, append_assoc b.text (c ∷ []) (first_line r));
      room = ground (arith, ih.room);
    }

-- A healthy stream that has not been seen to end.
pub record IsOpen (s : InStream) : Type 0 where
  pub whole : s.broken ≡ false
  pub more : s.eof ≡ false
  pub good : s.error ≡ false

abbrev pub stream_after : InStream → Option (List ℕ) → InStream
stream_after s none = exhausted s
stream_after s (some rest) = record s { rest = rest }

pub record ReadsLine (inc : ℕ) (s : InStream) (b : Buffer) : Type 0 where
  pub b' : Buffer
  pub returns :
      utility_file_readln always s b inc ≡ returned (pos 0) (stream_after s (after_line s.rest)) b'
  pub text : b'.text ≡ first_line s.rest

-- With memory, a call on an open stream reads exactly the first line, whatever buffer it is given.
pub readln-ReadsLine :
    (inc : ℕ) (s : InStream) (b : Buffer)
    → IsOpen s
    → 0 < inc
    → length s.rest + inc < long_mod
    → ReadsLine inc s b
unfolding utility_file_readln after_scan finish_line
readln-ReadsLine inc s b o some_inc small =
    let start : Buffer =
      (if not b.allocated || b.len == 0
        then record { allocated = true; len = inc; text = [] }
        else record b { text = [] }) in
    let scan = scan_line-Scans inc s.rest start some_inc (ground arith) (ground arith) in
    record {
      b' = scan.b';
      returns = ground (arith, scan.stops, scan.room);
      text = ground (arith, scan.text);
    }

module _ {S : Type 0} (read_fn : List ℕ → S → Bool × S) where
  -- The callback on each line in turn, until it returns non-zero.
  unfoldable pub feed : List (List ℕ) → S → FileRead read_fn
  feed [] st = ended (pos 0) st
  feed (l ∷ ls) st = call read_fn l st (feed ls)

  call_cong :
      (l : List ℕ) (st : S) (f g : S → FileRead read_fn)
      → ((st' : S) → f st' ≡ g st')
      → call read_fn l st f ≡ call read_fn l st g
  call_cong l st f g h = ground (arith, h (read_fn l st).1)

  -- A stream that has been seen to end takes no more calls.
  read_lines_ended :
      (fuel inc : ℕ) (s : InStream) (b : Buffer) (st : S)
      → s.eof ≡ true
      → read_lines read_fn (suc fuel) always inc s b st ≡ ended (pos 0) st
  unfolding read_lines utility_file_readln
  read_lines_ended fuel inc s b st e = ground arith

  read_lines_step :
      (fuel inc : ℕ) (s : InStream) (b b' : Buffer) (s' : InStream) (st : S)
      → utility_file_readln always s b inc ≡ returned (pos 0) s' b'
      → read_lines read_fn (suc fuel) always inc s b st
        ≡ call read_fn b'.text st (read_lines read_fn fuel always inc s' b')
  unfolding read_lines
  read_lines_step fuel inc s b b' s' st e =
      ap (deliver read_fn (read_lines read_fn fuel always inc) st) e

  -- The rounds from here on, if those from the next line on are right.
  read_lines_round :
      (fuel inc : ℕ) (s : InStream) (b : Buffer) (st : S)
      → IsOpen s
      → 0 < inc
      → length s.rest + inc < long_mod
      → ((b' : Buffer) (st' : S)
          → read_lines read_fn fuel always inc (stream_after s (after_line s.rest)) b' st'
            ≡ feed (rest_lines (after_line s.rest)) st')
      → read_lines read_fn (suc fuel) always inc s b st ≡ feed (split s.rest) st
  unfolding feed
  read_lines_round fuel inc s b st o some_inc small next =
      let line = readln-ReadsLine inc s b o some_inc small in
      read_lines_step fuel inc s b line.b' (stream_after s (after_line s.rest)) st line.returns
      ∙ ap
          (λ t.
            call read_fn t st
              (read_lines read_fn fuel always inc (stream_after s (after_line s.rest)) line.b'))
          line.text
      ∙ call_cong (first_line s.rest) st _ (feed (rest_lines (after_line s.rest))) (next line.b')
      ∙ ap (λ ls. feed ls st) (sym (split_lem s.rest))

  read_lines_lem :
      (fuel inc : ℕ) (s : InStream) (b : Buffer) (st : S)
      → IsOpen s
      → 0 < inc
      → length s.rest + inc < long_mod
      → length s.rest + 2 ≤ fuel
      → read_lines read_fn fuel always inc s b st ≡ feed (split s.rest) st
  read_lines_lem zero inc s b st o some_inc small enough = absurd (omega arith)
  read_lines_lem (suc zero) inc s b st o some_inc small enough = absurd (omega arith)
  read_lines_lem (suc (suc fuel)) inc s b st o some_inc small enough =
      read_lines_round (suc fuel) inc s b st o some_inc small (λ b' st'.
        elim (Option-cases (after_line s.rest)) [
          | inl e ↦
              rw e (
                read_lines_ended fuel inc (exhausted s) b' st' (ground arith) ∙ unfold feed in refl)
          | inr (rest, e) ↦ rw e (
              read_lines_lem (suc fuel) inc (record s { rest = rest }) b' st'
                (record { whole = o.whole; more = o.more; good = o.good }) some_inc
                (omega (arith, length-after_line s.rest rest e))
                (omega (arith, length-after_line s.rest rest e)))
        ])

  -- With memory, a positive increment, and a healthy stream that is shorter than 2^64 bytes by
  -- the increment at least, `utility_file_read` ends, hands the callback exactly the lines of the
  -- stream in order (an empty one behind a last newline included) until it returns non-zero, and
  -- returns -1 in that case and 0 otherwise.
  pub utility_file_read-feed :
      (inc : ℕ) (s : InStream) (st : S)
      → IsOpen s
      → 0 < inc
      → length s.rest + inc < long_mod
      → utility_file_read read_fn always s inc st ≡ feed (split s.rest) st
  unfolding utility_file_read
  utility_file_read-feed inc s st o some_inc small =
      read_lines_lem (length s.rest + 2) inc s no_buffer st o some_inc small (omega arith)
