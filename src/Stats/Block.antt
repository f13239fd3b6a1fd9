-- ===== src/Stats/Block.antt =====
-- job.c: what `job_statistics_read` returns on healthy streams, and on broken ones.
use realtime_tests.Prelude.{
  ℕ, ◌<◌, ◌≡◌, ◌≢◌, ap, ◌∙◌, sym, true, false, none, some, List, [], ◌++◌, append_assoc, length,
  length-append, take, take-append, drop-append, long_mod, arith,
}
use realtime_tests.Prelude.Int.{pos, negsuc}
use realtime_tests.Prelude.Bytes.{encode, decode, length-encode, decode-encode}
use realtime_tests.Time.{Timespec, timespec}
use realtime_tests.Job.{JobStatistics, sizeof_job_statistics}
use realtime_tests.File.{InStream, exhausted, fread, utility_file_read_bin}
use realtime_tests.Stats.{
  encode_timespec, decode_timespec, encode_job_statistics, decode_job_statistics,
  job_statistics_read,
}

-- Both numbers fit a `long`.
abbrev pub Fits : Timespec → Type 0
Fits t = (t.tv_sec < long_mod) × (t.tv_nsec < long_mod)

pub length-encode_timespec : (t : Timespec) → length (encode_timespec t) ≡ 16
unfolding encode_timespec
length-encode_timespec t = omega (
  arith,
  length-append (encode 8 t.tv_sec) (encode 8 t.tv_nsec),
  length-encode 8 t.tv_sec,
  length-encode 8 t.tv_nsec,
)

decode_timespec-append :
    (xs ys bs : List ℕ)
    → 8 ≡ length xs
    → 8 ≡ length ys
    → decode_timespec (xs ++ (ys ++ bs)) ≡ timespec (decode xs) (decode ys)
unfolding decode_timespec
decode_timespec-append xs ys bs ex ey = λ i.
    timespec (decode (take-append xs (ys ++ bs) 8 ex i))
      (decode ((ap (take 8) (drop-append xs (ys ++ bs) 8 ex) ∙ take-append ys bs 8 ey) i))

encode_timespec-append :
    (t : Timespec) (bs : List ℕ)
    → encode_timespec t ++ bs ≡ encode 8 t.tv_sec ++ (encode 8 t.tv_nsec ++ bs)
unfolding encode_timespec
encode_timespec-append t bs = append_assoc (encode 8 t.tv_sec) (encode 8 t.tv_nsec) bs

pub decode-encode_timespec :
    (t : Timespec) (bs : List ℕ) → Fits t → decode_timespec (encode_timespec t ++ bs) ≡ t
decode-encode_timespec t bs h =
    ap decode_timespec (encode_timespec-append t bs)
    ∙ decode_timespec-append (encode 8 t.tv_sec) (encode 8 t.tv_nsec) bs
        (sym (length-encode 8 t.tv_sec)) (sym (length-encode 8 t.tv_nsec))
    ∙ (λ i.
        timespec (decode-encode 8 t.tv_sec (omega arith) i)
          (decode-encode 8 t.tv_nsec (omega arith) i))

pub length-encode_job_statistics :
    (s : JobStatistics) → length (encode_job_statistics s) ≡ sizeof_job_statistics
unfolding encode_job_statistics
length-encode_job_statistics s = omega (
  arith,
  length-append (encode_timespec s.t_begin) (encode_timespec s.t_end),
  length-encode_timespec s.t_begin,
  length-encode_timespec s.t_end,
)

encode_job_statistics-append :
    (s : JobStatistics) (bs : List ℕ)
    → encode_job_statistics s ++ bs ≡ encode_timespec s.t_begin ++ (encode_timespec s.t_end ++ bs)
unfolding encode_job_statistics
encode_job_statistics-append s bs =
    append_assoc (encode_timespec s.t_begin) (encode_timespec s.t_end) bs

decode_parts :
    (xs ys : List ℕ)
    → 16 ≡ length xs
    → decode_job_statistics (xs ++ ys)
      ≡ record { t_begin = decode_timespec (xs ++ ys); t_end = decode_timespec ys }
unfolding decode_job_statistics
decode_parts xs ys e = λ i. record {
  t_begin = decode_timespec (xs ++ ys);
  t_end = decode_timespec (drop-append xs ys 16 e i);
}

decode-encode_job_statistics :
    (s : JobStatistics) (bs : List ℕ)
    → Fits s.t_begin
    → Fits s.t_end
    → decode_job_statistics (encode_job_statistics s ++ bs) ≡ s
decode-encode_job_statistics s bs hb he =
    ap decode_job_statistics (encode_job_statistics-append s bs)
    ∙ decode_parts (encode_timespec s.t_begin) (encode_timespec s.t_end ++ bs)
        (sym (length-encode_timespec s.t_begin))
    ∙ (λ i. record {
      t_begin = decode-encode_timespec s.t_begin (encode_timespec s.t_end ++ bs) hb i;
      t_end = decode-encode_timespec s.t_end bs he i;
    })

-- Statistics of times that fit 64 bits, next on a stream that has not been seen to end, are read
-- back as they were written, and the stream goes on behind them.
pub job_statistics_read-encode :
    (found : List ℕ) (s : InStream) (j : JobStatistics) (rest : List ℕ)
    → s.eof ≡ false
    → Fits j.t_begin
    → Fits j.t_end
    → s.rest ≡ encode_job_statistics j ++ rest
    → job_statistics_read found s ≡ (pos 0, some j, record s { rest = rest })
unfolding job_statistics_read utility_file_read_bin fread
job_statistics_read-encode found s j rest more hb he e =
    let len = length-encode_job_statistics j in
    ground (
      arith,
      len,
      length-append (encode_job_statistics j) rest,
      take-append (encode_job_statistics j) rest sizeof_job_statistics (omega (arith, len)),
      drop-append (encode_job_statistics j) rest sizeof_job_statistics (omega (arith, len)),
      decode-encode_job_statistics j found hb he,
    )

-- At the end of a healthy stream the answer is -1 if nothing is left and -2 if a part of a block
-- is, and nothing is stored. On a stream that breaks before a whole block is read, without an
-- error or an end before, the answer is 0 as for a success though `utility_file_read_bin` reports
-- -3, and what was found in the local buffer is stored behind the bytes read.
pub job_statistics_read_short :
    (found : List ℕ) (s : InStream)
    → s.eof ≡ false
    → s.error ≡ false
    → length s.rest < sizeof_job_statistics
    → (s.broken ≡ false → s.rest ≡ [] → job_statistics_read found s ≡ (negsuc 0, none, exhausted s))
      × (s.broken ≡ false
          → s.rest ≢ []
          → job_statistics_read found s ≡ (negsuc 1, none, exhausted s))
      × (s.broken ≡ true
          → job_statistics_read found s
            ≡ (pos 0, some (decode_job_statistics (s.rest ++ found)), exhausted s))
unfolding job_statistics_read utility_file_read_bin fread
job_statistics_read_short found s more good short =
    (λ whole none_left. ground arith, λ whole some_left. ground arith, λ broken. ground arith)
