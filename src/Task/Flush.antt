-- ===== src/Task/Flush.antt =====
-- task.c: `flush_stats_ringbuf` and `close_logging_file`, the clean-up handlers of `task_start`.
use realtime_tests.Prelude.{
  ℕ, ◌+◌, ◌%◌, ◌^◌, Bool, true, false, not, Option, none, some, List, [], ◌∷◌, ◌++◌, if◌then◌else◌,
}
use realtime_tests.Prelude.Int.{ℤ, pos, negsuc}
use realtime_tests.Prelude.Bytes.{encode}
use realtime_tests.Job.{
  JobStatistics, JobstatsRingbuf, jobstats_ringbuf_oldest_pos, jobstats_ringbuf_lost_count,
}
use realtime_tests.Job.Saving.{Save, ok, fault, out_of_fuel, jobstats_ringbuf_save}
use realtime_tests.Job.Saved.{stream}
use realtime_tests.Stats.{encode_job_statistics}
use realtime_tests.Task.Create.{Task}

-- The packed `task_statistics_ringbuf`.
unfoldable pub encode_ringbuf : Task → List ℕ
unfolding encode
encode_ringbuf tau =
    encode 8 tau.oldest_job_pos ++ (encode 8 tau.lost_job_count ++ encode 8 tau.write_count)

unfoldable pub encode_jobs : List JobStatistics → List ℕ
encode_jobs [] = []
encode_jobs (s ∷ ss) = encode_job_statistics s ++ encode_jobs ss

-- How the handler ends: with the task and the bytes appended to the log, or not at all.
pub data Flushed : Type 0 where
  flushed : Task → List ℕ → Flushed
  unfinished : Flushed

-- `tau->fail_to_close_stats_log -= rc`, an `unsigned`.
abbrev pub count_failure : Task → ℤ → Task
count_failure tau (pos n) = tau
count_failure tau (negsuc n) = record tau {
  fail_to_close_stats_log = (tau.fail_to_close_stats_log + (n + 1)) % 2 ^ 32;
}

abbrev pub after_save : Task → Save → Flushed
after_save tau (ok (rc, out)) =
    flushed (count_failure tau rc) (encode_ringbuf tau ++ encode_jobs out.written)
after_save tau fault = unfinished
after_save tau out_of_fuel = unfinished

-- The counters, and the ring buffer destroyed at the label `out`.
unfoldable pub take_counters : Task → JobstatsRingbuf → Task
unfolding jobstats_ringbuf_oldest_pos jobstats_ringbuf_lost_count
take_counters tau r = record tau {
  stats_ringbuf = none;
  oldest_job_pos = jobstats_ringbuf_oldest_pos r;
  lost_job_count = jobstats_ringbuf_lost_count r;
  write_count = r.write_count;
}

abbrev pub flush_ring : Bool → Bool → ℕ → Task → Option JobstatsRingbuf → Flushed
flush_ring has_log preamble_writes room tau none = flushed tau []
flush_ring has_log preamble_writes room tau (some r) =
    let tau' = take_counters tau r in
    if tau.disable_job_statistics
    then flushed tau []
    else if not has_log
    then flushed tau' []
    else if not preamble_writes
    then flushed (count_failure tau' (negsuc 0)) []
    else after_save tau' (jobstats_ringbuf_save r (stream [] room))

-- `has_log` tells whether the log is still open, `preamble_writes` whether the first `fwrite`
-- succeeds, and `room` how many statistics the log takes after it.
unfoldable pub flush_stats_ringbuf : Bool → Bool → ℕ → Task → Flushed
flush_stats_ringbuf has_log preamble_writes room tau =
    flush_ring has_log preamble_writes room tau tau.stats_ringbuf

-- Whether the log is open after the call, and the task.
unfoldable pub close_logging_file : Bool → Bool → Task → Bool × Task
close_logging_file has_log closes tau =
    if has_log
    then if not closes then (true, count_failure tau (negsuc 0)) else (false, tau)
    else (false, tau)
