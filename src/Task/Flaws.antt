-- ===== src/Task/Flaws.antt =====
-- task.c: logs on which `task_statistics_read` does not do what it promises.
use realtime_tests.Prelude.{
  ℕ, zero, suc, ◌+◌, ◌%◌, ◌^◌, ◌<◌, ◌≡◌, refl, sym, ap, ◌∙◌, Bool, true, false, some, List, [],
  ◌++◌, append-nil, if◌then◌else◌, length, arith,
}
use realtime_tests.Prelude.Int.{pos, negsuc}
use realtime_tests.Job.{JobStatistics, sizeof_job_statistics}
use realtime_tests.File.{InStream, exhausted, fread, utility_file_read_bin}
use realtime_tests.File.Exact.{IsOpen}
use realtime_tests.Stats.{decode_job_statistics, job_statistics_read}
use realtime_tests.Task.{TaskParams, sizeof_task_statistics, encode_fixed, encode_task_statistics}
use realtime_tests.Task.Header.{read_back, length-encode_fixed, decode-encode_fixed}
use realtime_tests.Task.RoundTrip.{fread-append, read_back-is_compatible}
use realtime_tests.Task.Reading.{
  TaskInfo, returned, stuck, on_job, read_jobs, show_task, read_ringbuf, read_name,
  task_statistics_read,
}

-- The device fails before another whole block of job statistics.
pub record IsBreaking (s : InStream) : Type 0 where
  pub broken : s.broken ≡ true
  pub more : s.eof ≡ false
  pub short : length s.rest < sizeof_job_statistics

job_statistics_read-IsBreaking :
    (found : List ℕ) (s : InStream)
    → IsBreaking s
    → job_statistics_read found s
      ≡ (pos 0, some (decode_job_statistics (s.rest ++ found)), exhausted s)
unfolding job_statistics_read utility_file_read_bin fread
job_statistics_read-IsBreaking found s b = ground (arith, b.broken, b.more, b.short)

exhausted-IsBreaking : (s : InStream) → IsBreaking s → IsBreaking (exhausted s)
exhausted-IsBreaking s b = record {
  broken = ground (arith, b.broken);
  more = ground (arith, b.more, b.broken);
  short = ground (arith, b.broken);
}

module _ {S : Type 0} (has_memory : ℕ → Bool) (found : List ℕ) (task_fn : TaskInfo → S → Bool × S)
    (job_fn : JobStatistics → S → Bool × S) where
  -- On a stream whose device fails before another whole block, the loop over the jobs never
  -- ends if the callback always returns 0: no number of rounds is enough.
  pub read_jobs-IsBreaking :
      (fuel : ℕ) (s : InStream) (st : S)
      → IsBreaking s
      → ((j : JobStatistics) (st' : S) → (job_fn j st').0 ≡ false)
      → read_jobs has_memory found task_fn job_fn fuel s st ≡ stuck
  unfolding read_jobs
  read_jobs-IsBreaking zero s st b going = refl
  read_jobs-IsBreaking (suc fuel) s st b going =
      let garbage = decode_job_statistics (s.rest ++ found) in
      ap
        (on_job has_memory found task_fn job_fn (read_jobs has_memory found task_fn job_fn fuel) st)
        (job_statistics_read-IsBreaking found s b)
      ∙ ground (
        arith,
        going garbage st,
        read_jobs-IsBreaking fuel (exhausted s) (job_fn garbage st).1 (exhausted-IsBreaking s b)
            going,
      )

  read_name-disabled :
      (fuel : ℕ) (p : TaskParams) (rest : List ℕ) (s : InStream) (st : S)
      → p.ringbuffer_size ≡ 0
      → length p.name + 1 < 2 ^ 32
      → has_memory (length p.name + 1) ≡ true
      → s.rest ≡ p.name ++ rest
      → (read_name has_memory found task_fn job_fn fuel (read_back p) s st ≡ (
          let (stop, st') = task_fn (record ((read_back p).info) { name = p.name }) st in
          if stop then returned (negsuc 0) st' else returned (negsuc 2) st'))
  unfolding read_name read_ringbuf show_task
  read_name-disabled fuel p rest s st off short memory e =
      let same : length p.name % 2 ^ 32 ≡ length p.name = omega arith in
      let size : (length p.name % 2 ^ 32 + 1) % 2 ^ 32 ≡ length p.name + 1 = omega arith in
      rw (fread-append (length p.name % 2 ^ 32) p.name rest s e same, size, same) ground arith

  -- The log of a task without a ring buffer, as `task_create` writes it with a name of less than
  -- 2^32 - 1 bytes, is never read with success: on a healthy stream, with memory for the name,
  -- the first callback is shown the parameters, and the result is -3, or -1 if that callback
  -- returns non-zero.
  pub task_statistics_read-disabled :
      (fuel : ℕ) (p : TaskParams) (s : InStream) (st : S)
      → IsOpen s
      → p.ringbuffer_size ≡ 0
      → length p.name + 1 < 2 ^ 32
      → has_memory (length p.name + 1) ≡ true
      → s.rest ≡ encode_task_statistics p
      → (task_statistics_read has_memory found task_fn job_fn fuel s st ≡ (
          let (stop, st') = task_fn (record ((read_back p).info) { name = p.name }) st in
          if stop then returned (negsuc 0) st' else returned (negsuc 2) st'))
  unfolding task_statistics_read encode_task_statistics
  task_statistics_read-disabled fuel p s st o off short memory e = ground (
    arith,
    o.more,
    fread-append sizeof_task_statistics (encode_fixed p) p.name s e (sym (length-encode_fixed p)),
    length-encode_fixed p,
    decode-encode_fixed p,
    read_back-is_compatible p,
    read_name-disabled fuel p [] (record s { rest = p.name }) st off short memory
        (sym (append-nil p.name)),
  )
