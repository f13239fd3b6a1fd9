-- ===== src/File/Examples.antt =====
-- Tests of utility_file.c, and its theorems at concrete streams.
use realtime_tests.Prelude.{
  ℕ, ◌≡◌, ◌≢◌, refl, Bool, true, false, List, [], ◌∷◌, ◌++◌, leb, add_long, arith,
}
use realtime_tests.Prelude.Int.{pos}
use realtime_tests.File.{InStream, newline, out_of_bounds, utility_file_readln}
use realtime_tests.File.Lines.{no_buffer, ended, utility_file_read}
use realtime_tests.File.Exact.{always, split, feed, utility_file_read-feed}
use realtime_tests.File.Bounds.{utility_file_readln-in_bounds}

-- "ab", a newline, and "c".
abbrev two_lines : InStream
two_lines = record {
  rest = b'a' ∷ b'b' ∷ newline ∷ b'c' ∷ [];
  broken = false;
  eof = false;
  error = false;
}

-- A callback that keeps the lines, and never stops.
abbrev keep : List ℕ → List (List ℕ) → Bool × List (List ℕ)
keep l st = (false, st ++ (l ∷ []))

utility_file_read_test :
    utility_file_read keep always two_lines 1 []
    ≡ ended (pos 0) ((b'a' ∷ b'b' ∷ []) ∷ (b'c' ∷ []) ∷ [])
unfolding utility_file_read add_long
utility_file_read_test = refl

utility_file_read-feed_example :
    utility_file_read keep always two_lines 1 []
    ≡ feed keep (split (b'a' ∷ b'b' ∷ newline ∷ b'c' ∷ [])) []
utility_file_read-feed_example =
    utility_file_read-feed keep 1 two_lines [] (record { whole = refl; more = refl; good = refl })
      (omega arith) (omega arith)

-- `realloc` gives no more than one byte, and the device fails behind the text.
utility_file_readln-in_bounds_example :
    utility_file_readln (λ n. leb n 1) (record two_lines { broken = true }) no_buffer 1
    ≢ out_of_bounds
utility_file_readln-in_bounds_example =
    utility_file_readln-in_bounds (λ n. leb n 1) (record two_lines { broken = true }) no_buffer 1
      (omega arith) (omega arith)
