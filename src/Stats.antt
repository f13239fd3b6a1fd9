-- ===== src/Stats.antt =====
-- The binary log: `job_statistics_read` of job.c, and the packed structures of job.h and task.h as
-- bytes of a little-endian LP64 host.
pub mod Block
use realtime_tests.Prelude.{
  ℕ, ◌+◌, Bool, true, false, not, Option, none, some, List, [], ◌∷◌, ◌++◌, ◌==◌, if◌then◌else◌,
  take, drop,
}
use realtime_tests.Prelude.Int.{ℤ, pos, negsuc}
use realtime_tests.Prelude.Bytes.{encode, decode}
use realtime_tests.Time.{Timespec, timespec}
use realtime_tests.Job.{JobStatistics, sizeof_job_statistics}
use realtime_tests.File.{InStream, utility_file_read_bin}

unfoldable pub encode_timespec : Timespec → List ℕ
unfolding encode
encode_timespec t = encode 8 t.tv_sec ++ encode 8 t.tv_nsec

unfoldable pub decode_timespec : List ℕ → Timespec
unfolding decode
decode_timespec bs = timespec (decode (take 8 bs)) (decode (take 8 (drop 8 bs)))

-- A `job_statistics` as `fwrite` writes it and as `memcpy` reads it.
unfoldable pub encode_job_statistics : JobStatistics → List ℕ
unfolding encode_timespec
encode_job_statistics s = encode_timespec s.t_begin ++ encode_timespec s.t_end

unfoldable pub decode_job_statistics : List ℕ → JobStatistics
unfolding decode_timespec
decode_job_statistics bs = record {
  t_begin = decode_timespec bs;
  t_end = decode_timespec (drop 16 bs);
}

-- The result code, what is stored through `stats` if anything, and the stream after it. `found` is
-- what the uninitialised local `result` holds.
unfoldable pub job_statistics_read : List ℕ → InStream → ℤ × Option JobStatistics × InStream
unfolding utility_file_read_bin decode_job_statistics
job_statistics_read found s =
    let r = utility_file_read_bin s sizeof_job_statistics in
    let copied = decode_job_statistics (r.bytes ++ found) in
    elim (r.rc) [
      | pos n ↦ (pos 0, some copied, r.stream)
      | negsuc n ↦
          if n == 1
          then if not (r.len == 0)
            then (negsuc 1, none, r.stream)
            else if r.stream.error
            then (negsuc 1, none, r.stream)
            else (negsuc 0, none, r.stream)
          else if n == 0
          then (negsuc 0, none, r.stream)
          else (pos 0, some copied, r.stream)
    ]
