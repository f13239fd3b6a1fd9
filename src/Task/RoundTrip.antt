-- ===== src/Task/RoundTrip.antt =====
-- task.c: `task_statistics_read` on a log that `task_create` and the clean-up handler wrote.
use realtime_tests.Prelude.{
  ℕ, zero, suc, ◌+◌, ◌%◌, ◌^◌, ◌<◌, ◌≡◌, ◌≢◌, refl, sym, ap, ◌∙◌, Bool, true, List, [], ◌∷◌, ◌++◌,
  append_assoc, if◌then◌else◌, length, length-append, take-append, drop-append, All, long_mod,
  arith,
}
use realtime_tests.Prelude.Int.{pos, negsuc}
use realtime_tests.Prelude.Bytes.{decode, decode-encode}
use realtime_tests.Job.{JobStatistics}
use realtime_tests.File.{InStream, fread}
use realtime_tests.File.Exact.{IsOpen}
use realtime_tests.Stats.Block.{Fits, job_statistics_read-encode, job_statistics_read_short}
use realtime_tests.Task.{TaskParams, sizeof_task_statistics, encode_fixed, encode_task_statistics}
use realtime_tests.Task.Create.{Task}
use realtime_tests.Task.Flush.{encode_ringbuf, encode_jobs}
use realtime_tests.Task.Header.{read_back, length-encode_fixed, decode-encode_fixed}
use realtime_tests.Task.Reading.{
  TaskInfo, Result, returned, on_job, read_jobs, show_task, read_ringbuf, read_name, is_compatible,
  decode_ringbuf, task_statistics_read,
}

-- A block that is there is read.
pub fread-append :
    (n : ℕ) (xs ys : List ℕ) (s : InStream)
    → s.rest ≡ xs ++ ys
    → n ≡ length xs
    → fread n s ≡ (xs, record s { rest = ys })
unfolding fread
fread-append n xs ys s e size =
    ground (arith, length-append xs ys, take-append xs ys n size, drop-append xs ys n size)

abbrev pub JobFits : JobStatistics → Type 0
JobFits j = Fits j.t_begin × Fits j.t_end

-- The three numbers that the clean-up handler writes fit.
abbrev pub CountersFit : Task → Type 0
CountersFit t =
    (t.oldest_job_pos < long_mod) × (t.lost_job_count < long_mod) × (t.write_count < long_mod)

abbrev pub with_counters : Task → TaskInfo → TaskInfo
with_counters t tau = record tau {
  oldest_job_pos = t.oldest_job_pos;
  lost_job_count = t.lost_job_count;
  write_count = t.write_count;
}

decode-encode_ringbuf :
    (tau : TaskInfo) (t : Task)
    → CountersFit t
    → decode_ringbuf tau (encode_ringbuf t) ≡ with_counters t tau
unfolding decode_ringbuf decode encode_ringbuf
decode-encode_ringbuf tau t (oldest, lost, count) = λ i. record tau {
  oldest_job_pos = decode-encode 8 t.oldest_job_pos oldest i;
  lost_job_count = decode-encode 8 t.lost_job_count lost i;
  write_count = decode-encode 8 t.write_count count i;
}

length-encode_ringbuf : (t : Task) → length (encode_ringbuf t) ≡ 24
unfolding encode_ringbuf
length-encode_ringbuf t = refl

pub read_back-is_compatible : (p : TaskParams) → is_compatible (read_back p) ≡ true
unfolding is_compatible
read_back-is_compatible p = refl

module _ {S : Type 0} (has_memory : ℕ → Bool) (found : List ℕ) (task_fn : TaskInfo → S → Bool × S)
    (job_fn : JobStatistics → S → Bool × S) where
  -- The second callback on each job in turn, until it returns non-zero.
  unfoldable pub present_jobs : List JobStatistics → S → Result has_memory found task_fn job_fn
  present_jobs [] st = returned (pos 0) st
  present_jobs (j ∷ js) st =
      let (stop, st') = job_fn j st in
      let more = present_jobs js st' in if stop then returned (negsuc 1) st' else more

  read_jobs-present_jobs :
      (fuel : ℕ) (jobs : List JobStatistics) (s : InStream) (st : S)
      → IsOpen s
      → All JobFits jobs
      → s.rest ≡ encode_jobs jobs
      → length jobs < fuel
      → read_jobs has_memory found task_fn job_fn fuel s st ≡ present_jobs jobs st
  unfolding read_jobs present_jobs encode_jobs
  read_jobs-present_jobs zero jobs s st o fit e enough = absurd (omega arith)
  read_jobs-present_jobs (suc fuel) [] s st o fit e enough =
      ap
        (on_job has_memory found task_fn job_fn (read_jobs has_memory found task_fn job_fn fuel) st)
        ((job_statistics_read_short found s o.more o.good (rw e (omega arith))).0 o.whole e)
  read_jobs-present_jobs (suc fuel) (j ∷ js) s st o fit e enough =
      ap
        (on_job has_memory found task_fn job_fn (read_jobs has_memory found task_fn job_fn fuel) st)
        (job_statistics_read-encode found s j (encode_jobs js) o.more fit.0.0 fit.0.1 e)
      ∙ ground (
        arith,
        read_jobs-present_jobs fuel js (record s { rest = encode_jobs js }) (job_fn j st).1
            (record { whole = o.whole; more = o.more; good = o.good }) fit.1 refl (omega arith),
      )

  -- The first callback, then the second.
  unfoldable pub present :
      TaskInfo → List JobStatistics → S → Result has_memory found task_fn job_fn
  unfolding present_jobs
  present tau jobs st =
      let (stop, st') = task_fn tau st in
      let more = present_jobs jobs st' in if stop then returned (negsuc 0) st' else more

  show_task-present :
      (fuel : ℕ) (tau : TaskInfo) (jobs : List JobStatistics) (s : InStream) (st : S)
      → IsOpen s
      → tau.disable_job_statistics ≡ 0
      → All JobFits jobs
      → s.rest ≡ encode_jobs jobs
      → length jobs < fuel
      → show_task has_memory found task_fn job_fn fuel tau s st ≡ present tau jobs st
  unfolding show_task present
  show_task-present fuel tau jobs s st o on fit e enough =
      ground (arith, read_jobs-present_jobs fuel jobs s (task_fn tau st).1 o fit e enough)

  read_ringbuf-present :
      (fuel : ℕ) (tau : TaskInfo) (t : Task) (jobs : List JobStatistics) (s : InStream) (st : S)
      → IsOpen s
      → tau.disable_job_statistics ≡ 0
      → CountersFit t
      → All JobFits jobs
      → s.rest ≡ encode_ringbuf t ++ encode_jobs jobs
      → length jobs < fuel
      → read_ringbuf has_memory found task_fn job_fn fuel tau s st
        ≡ present (with_counters t tau) jobs st
  unfolding read_ringbuf
  read_ringbuf-present fuel tau t jobs s st o on fits fit e enough = ground (
    arith,
    fread-append 24 (encode_ringbuf t) (encode_jobs jobs) s e (sym (length-encode_ringbuf t)),
    length-encode_ringbuf t,
    decode-encode_ringbuf tau t fits,
    show_task-present fuel (with_counters t tau) jobs (record s { rest = encode_jobs jobs }) st
        (record { whole = o.whole; more = o.more; good = o.good }) on fit refl enough,
  )

  -- What the first callback is shown of a task that was created with `p` and ended as `t`.
  abbrev shown : TaskParams → Task → TaskInfo
  shown p t = with_counters t (record ((read_back p).info) { name = p.name })

  read_name-present :
      (fuel : ℕ) (p : TaskParams) (t : Task) (jobs : List JobStatistics) (s : InStream) (st : S)
      → IsOpen s
      → (p.ringbuffer_size ≢ 0)
      → length p.name + 1 < 2 ^ 32
      → has_memory (length p.name + 1) ≡ true
      → CountersFit t
      → All JobFits jobs
      → s.rest ≡ p.name ++ (encode_ringbuf t ++ encode_jobs jobs)
      → length jobs < fuel
      → read_name has_memory found task_fn job_fn fuel (read_back p) s st
        ≡ present (shown p t) jobs st
  unfolding read_name
  read_name-present fuel p t jobs s st o on short memory fits fit e enough =
      let same : length p.name % 2 ^ 32 ≡ length p.name = omega arith in
      let size : (length p.name % 2 ^ 32 + 1) % 2 ^ 32 ≡ length p.name + 1 = omega arith in
      rw
        (
          fread-append (length p.name % 2 ^ 32) p.name (encode_ringbuf t ++ encode_jobs jobs) s e
              same,
          size,
          same,
        )
        ground
        (
          arith,
          read_ringbuf-present fuel (record ((read_back p).info) { name = p.name }) t jobs
              (record s { rest = encode_ringbuf t ++ encode_jobs jobs }) st
              (record { whole = o.whole; more = o.more; good = o.good }) (ground arith) fits fit
              refl enough,
        )

  -- A log that holds the parameters of a task with a ring buffer, its counters and some job
  -- statistics, as `task_create` and the clean-up handler write them, is read to its end: the
  -- first callback is shown the parameters, the times modulo 2^32, and the counters, the second
  -- one the jobs in order; the result is 0, or -1 or -2 as soon as the first or the second
  -- callback returns non-zero. The stream is healthy, the name is shorter than 2^32 - 1 bytes and
  -- has memory, and the counters and the times of the jobs fit 64 bits.
  pub task_statistics_read-encode :
      (fuel : ℕ) (p : TaskParams) (t : Task) (jobs : List JobStatistics) (s : InStream) (st : S)
      → IsOpen s
      → (p.ringbuffer_size ≢ 0)
      → length p.name + 1 < 2 ^ 32
      → has_memory (length p.name + 1) ≡ true
      → CountersFit t
      → All JobFits jobs
      → s.rest ≡ encode_task_statistics p ++ (encode_ringbuf t ++ encode_jobs jobs)
      → length jobs < fuel
      → task_statistics_read has_memory found task_fn job_fn fuel s st ≡ present (shown p t) jobs st
  unfolding task_statistics_read encode_task_statistics
  task_statistics_read-encode fuel p t jobs s st o on short memory fits fit e enough =
      let back = p.name ++ (encode_ringbuf t ++ encode_jobs jobs) in
      let split : s.rest ≡ encode_fixed p ++ back =
        e ∙ append_assoc (encode_fixed p) p.name (encode_ringbuf t ++ encode_jobs jobs) in
      ground (
        arith,
        fread-append sizeof_task_statistics (encode_fixed p) back s split
            (sym (length-encode_fixed p)),
        length-encode_fixed p,
        decode-encode_fixed p,
        read_back-is_compatible p,
        read_name-present fuel p t jobs (record s { rest = back }) st
            (record { whole = o.whole; more = o.more; good = o.good }) on short memory fits fit refl
            enough,
      )
