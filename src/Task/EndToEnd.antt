-- ===== src/Task/EndToEnd.antt =====
-- job.c and task.c together: a task is created, runs, is flushed, and its log is read.
use realtime_tests.Prelude.{
  ℕ, ◌+◌, ◌-◌, ◌*◌, ◌^◌, ◌<◌, ◌≡◌, refl, ◌∙◌, Bool, true, false, some, List, [], ◌++◌, ◌==◌,
  if◌then◌else◌, length, drop, All, All-drop, length-drop, long_mod, arith,
}
use realtime_tests.Time.{Timespec}
use realtime_tests.Job.{
  JobStatistics, JobstatsRingbuf, sizeof_job_statistics, jobstats_ringbuf_create,
}
use realtime_tests.Job.Counts.{Reports}
use realtime_tests.Job.History.{run_jobs, readings, length-readings, overrun_history}
use realtime_tests.File.{InStream}
use realtime_tests.Task.{TaskParams, encode_task_statistics}
use realtime_tests.Task.Create.{Environment, Task, created, new_task, task_create}
use realtime_tests.Task.Created.{ring_of, task_create_ends}
use realtime_tests.Task.Flush.{encode_ringbuf, encode_jobs, flushed, flush_stats_ringbuf}
use realtime_tests.Task.Flushed.{counted, flush_stats_ringbuf-Reports}
use realtime_tests.Task.Header.{read_back}
use realtime_tests.Task.Reading.{TaskInfo, task_statistics_read}
use realtime_tests.Task.RoundTrip.{JobFits, present, task_statistics_read-encode}

-- Every call succeeds.
abbrev pub working_environment : Environment
working_environment = record {
  stats_memory = true;
  task_memory = true;
  name_memory = true;
  path_memory = true;
  log_opens = true;
  ring_memory = (true, true);
  log_writes = true;
}

-- A healthy stream of some bytes.
abbrev pub in_stream : List ℕ → InStream
in_stream bytes = record { rest = bytes; broken = false; eof = false; error = false }

-- What a reader is to be shown of a task with the parameters `p` after `n` jobs.
abbrev pub shown_after : TaskParams → ℕ → TaskInfo
shown_after p n = record ((read_back p).info) {
  name = p.name;
  oldest_job_pos = (if n == 0 then 0 else n - p.ringbuffer_size + 1);
  lost_job_count = n - p.ringbuffer_size;
  write_count = n;
}

-- The parameters ask for a ring buffer that may overrun and that fits the memory, and the name
-- fits its field.
pub record IsLoggable (p : TaskParams) : Type 0 where
  pub some_slot : 0 < p.ringbuffer_size
  pub fits : sizeof_job_statistics * p.ringbuffer_size < long_mod
  pub overruns : p.ringbuffer_disable_overrun ≡ false
  pub short : length p.name + 1 < 2 ^ 32

-- The whole story of one task, as equations about the calls in it.
pub record Logs {W S : Type 0} (time : W → Timespec) (tick run_program : W → W)
    (task_fn : TaskInfo → S → Bool × S) (job_fn : JobStatistics → S → Bool × S) (found : List ℕ)
    (p : TaskParams) (n : ℕ) (w : W) (st : S) : Type 0 where
  pub r : JobstatsRingbuf
  pub r' : JobstatsRingbuf
  pub ended : Task
  pub bytes : List ℕ
  pub creates :
      task_create working_environment p ≡ created (new_task p (some r)) (encode_task_statistics p)
  pub runs : run_jobs time tick run_program n r w ≡ some r'
  pub flushes :
      flush_stats_ringbuf true true n (record (new_task p (some r)) { stats_ringbuf = some r' })
      ≡ flushed ended bytes
  pub reads :
      task_statistics_read
        (λ size. true)
        found
        task_fn
        job_fn
        (n + 1)
        (in_stream (encode_task_statistics p ++ bytes))
        st
      ≡ present
          (λ size. true)
          found
          task_fn
          job_fn
          (shown_after p n)
          (drop (n - p.ringbuffer_size) (readings time tick run_program n w))
          st

ring_of-working :
    (p : TaskParams) (r : JobstatsRingbuf)
    → IsLoggable p
    → jobstats_ringbuf_create (true, true) p.ringbuffer_size false ≡ some r
    → ring_of working_environment p ≡ some r
unfolding ring_of
ring_of-working p r ok made = ground (arith, ok.some_slot, ok.overruns)

pub creates_lem :
    (p : TaskParams) (r : JobstatsRingbuf)
    → ring_of working_environment p ≡ some r
    → task_create working_environment p ≡ created (new_task p (some r)) (encode_task_statistics p)
creates_lem p r e = ground (arith, task_create_ends working_environment p (some r) refl refl e)

flushes_lem :
    (p : TaskParams) (hist : List JobStatistics) (r r' : JobstatsRingbuf) (n : ℕ)
    → IsLoggable p
    → length hist ≡ n
    → r'.slot_count ≡ p.ringbuffer_size
    → Reports hist r' [] n
    → (flush_stats_ringbuf true true n (record (new_task p (some r)) { stats_ringbuf = some r' })
        ≡ (let ended =
              counted
                (record (new_task p (some r)) { stats_ringbuf = some r' })
                n
                p.ringbuffer_size in
            flushed ended
              (encode_ringbuf ended ++ encode_jobs (drop (n - p.ringbuffer_size) hist))))
unfolding new_task
flushes_lem p hist r r' n ok len size rep =
    let tau : Task = record (new_task p (some r)) { stats_ringbuf = some r' } in
    flush_stats_ringbuf-Reports tau hist r' n (ground (arith, ok.some_slot)) refl rep ∙ (λ i.
      let ended = counted tau (len i) (size i) in
      flushed ended (encode_ringbuf ended ++ encode_jobs (drop (len i - size i) hist)))

module _ {W S : Type 0} (time : W → Timespec) (tick run_program : W → W)
    (task_fn : TaskInfo → S → Bool × S) (job_fn : JobStatistics → S → Bool × S) where
  -- Create a task whose ring buffer may overrun, has a slot and fits the memory, and whose name
  -- is shorter than 2^32 - 1 bytes, with every call of the system succeeding; run fewer than 2^64
  -- jobs with a working clock whose readings fit 64 bits, let the clean-up handler save the ring
  -- buffer, and read the log: the first callback is shown the parameters (times modulo 2^32) with
  -- all the jobs written and all but the newest `ringbuffer_size` lost, and the second one the
  -- two clock readings of each of the newest jobs, oldest first; the result is 0, or -1 or -2 as
  -- soon as the first or the second callback returns non-zero.
  pub task_Logs :
      (found : List ℕ) (p : TaskParams) (n : ℕ) (w : W) (st : S)
      → IsLoggable p
      → n < long_mod
      → All JobFits (readings time tick run_program n w)
      → Logs time tick run_program task_fn job_fn found p n w st
  task_Logs found p n w st ok few fit =
      let (r, r', made, ran, size, rep) =
        overrun_history time tick run_program p.ringbuffer_size ok.some_slot ok.fits n w few [] n
          (omega arith) in
      let hist = readings time tick run_program n w in
      let len = length-readings time tick run_program n w in
      let tau : Task = record (new_task p (some r)) { stats_ringbuf = some r' } in
      let ended = counted tau n p.ringbuffer_size in
      let saved = drop (n - p.ringbuffer_size) hist in
      let bytes = encode_ringbuf ended ++ encode_jobs saved in
      record {
        r = r;
        r' = r';
        ended = ended;
        bytes = bytes;
        creates = creates_lem p r (ring_of-working p r ok made);
        runs = ran;
        flushes = flushes_lem p hist r r' n ok len size rep;
        reads =
            task_statistics_read-encode (λ k. true) found task_fn job_fn (n + 1) p ended saved
              (in_stream (encode_task_statistics p ++ bytes)) st
              (record { whole = refl; more = refl; good = refl }) (ground (arith, ok.some_slot))
              ok.short refl (ground (arith, ok.some_slot), omega arith, few)
              (All-drop JobFits (n - p.ringbuffer_size) hist fit) refl
              (omega (arith, length-drop (n - p.ringbuffer_size) hist, len));
      }
