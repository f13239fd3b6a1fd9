-- ===== src/Task/Flushed.antt =====
-- task.c: what the clean-up handler appends to the log after a run of jobs.
use realtime_tests.Prelude.{
  ℕ, ◌+◌, ◌-◌, ◌≡◌, ap, ◌∙◌, true, false, none, some, List, [], ◌++◌, ◌==◌, if◌then◌else◌, length,
  drop, arith,
}
use realtime_tests.Job.{JobStatistics, JobstatsRingbuf}
use realtime_tests.Job.Counts.{Reports}
use realtime_tests.Task.Create.{Task}
use realtime_tests.Task.Flush.{
  flushed, encode_ringbuf, encode_jobs, take_counters, flush_ring, flush_stats_ringbuf,
}

-- The task when its ring buffer has been saved and destroyed, after the history `hist`.
abbrev pub counted : Task → ℕ → ℕ → Task
counted tau n slots = record tau {
  stats_ringbuf = none;
  oldest_job_pos = (if n == 0 then 0 else n - slots + 1);
  lost_job_count = n - slots;
  write_count = n;
}

take_counters-counted :
    (tau : Task) (hist : List JobStatistics) (r : JobstatsRingbuf) (room : ℕ)
    → Reports hist r [] room
    → take_counters tau r ≡ counted tau (length hist) r.slot_count
unfolding take_counters
take_counters-counted tau hist r room rep = λ i. record tau {
  stats_ringbuf = none;
  oldest_job_pos = rep.oldest i;
  lost_job_count = rep.lost i;
  write_count = rep.written i;
}

flush_ring-Reports :
    (tau : Task) (hist : List JobStatistics) (r : JobstatsRingbuf) (room : ℕ)
    → tau.disable_job_statistics ≡ false
    → Reports hist r [] room
    → flush_ring true true room tau (some r)
      ≡ flushed (take_counters tau r) (
          encode_ringbuf (take_counters tau r)
          ++ encode_jobs (drop (length hist - r.slot_count) hist))
flush_ring-Reports tau hist r room on rep = ground (arith, rep.saved)

-- With an open log that takes everything, the handler appends the counters and the newest job
-- statistics that the ring buffer reports, and leaves the task with those counters, no ring
-- buffer and no failure.
pub flush_stats_ringbuf-Reports :
    (tau : Task) (hist : List JobStatistics) (r : JobstatsRingbuf) (room : ℕ)
    → tau.disable_job_statistics ≡ false
    → tau.stats_ringbuf ≡ some r
    → Reports hist r [] room
    → (flush_stats_ringbuf true true room tau ≡ (
        let tau' = counted tau (length hist) r.slot_count in
        flushed tau' (encode_ringbuf tau' ++ encode_jobs (drop (length hist - r.slot_count) hist))))
unfolding flush_stats_ringbuf
flush_stats_ringbuf-Reports tau hist r room on ring rep =
    ap (flush_ring true true room tau) ring
    ∙ flush_ring-Reports tau hist r room on rep
    ∙ ap
        (λ tau'.
          flushed tau'
            (encode_ringbuf tau' ++ encode_jobs (drop (length hist - r.slot_count) hist)))
        (take_counters-counted tau hist r room rep)
