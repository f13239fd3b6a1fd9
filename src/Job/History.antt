-- ===== src/Job/History.antt =====
-- job.c: whole runs of jobs, from the creation of the ring buffer to its saving.
use realtime_tests.Prelude.{
  ℕ, zero, suc, ◌*◌, ◌<◌, ◌≤◌, ◌≡◌, inl, refl, ap, ◌∙◌, true, false, Option, none, some, List, [],
  ◌∷◌, length, min, long_mod, arith,
}
use realtime_tests.Time.{Timespec}
use realtime_tests.Job.{
  JobStatistics, JobstatsRingbuf, sizeof_job_statistics, jobstats_ringbuf_create, job_start,
}
use realtime_tests.Job.Logged.{log_one, log_all, create-IsFresh}
use realtime_tests.Job.Enabled.{slot_count-log_one, log_all-Holds}
use realtime_tests.Job.Counts.{Reports, Holds-Reports}
use realtime_tests.Job.Disabled.{ReportsFirst, log_all-Keeps, Keeps-ReportsFirst}
use realtime_tests.Job.Started.{job_start-log_one}

slot_count-log_all :
    (r : JobstatsRingbuf) (ss : List JobStatistics) → (log_all r ss).slot_count ≡ r.slot_count
unfolding log_all
slot_count-log_all r [] = refl
slot_count-log_all r (s ∷ ss) = slot_count-log_all (log_one r s) ss ∙ slot_count-log_one r s

-- A clock that never fails: `time` is what it shows, `tick` is what a call does to the world.
module _ {S : Type 0} (time : S → Timespec) (tick run_program : S → S) where
  abbrev pub working : S → Option Timespec × S
  working w = (some (time w), tick w)

  -- `n` jobs, one after the other: the ring buffer and the world after them.
  unfoldable pub run_jobs : ℕ → JobstatsRingbuf → S → Option JobstatsRingbuf
  run_jobs zero r w = some r
  run_jobs (suc n) r w = elim (job_start working run_program (some r) w).1 [
    | none ↦ none
    | some r' ↦ run_jobs n r' (job_start working run_program (some r) w).2
  ]

  -- The two readings of the clock that frame each of the `n` jobs.
  unfoldable pub readings : ℕ → S → List JobStatistics
  readings zero w = []
  readings (suc n) w =
      record { t_begin = time w; t_end = time (run_program (tick w)) }
      ∷ readings n (tick (run_program (tick w)))

  pub length-readings : (n : ℕ) (w : S) → length (readings n w) ≡ n
  unfolding readings
  length-readings zero w = refl
  length-readings (suc n) w = ap suc (length-readings n (tick (run_program (tick w))))

  run_jobs-log_all :
      (n : ℕ) (r : JobstatsRingbuf) (w : S) → run_jobs n r w ≡ some (log_all r (readings n w))
  unfolding run_jobs readings log_all
  run_jobs-log_all zero r w = refl
  run_jobs-log_all (suc n) r w = ground (
    arith,
    job_start-log_one working run_program r w (time w) (time (run_program (tick w))) refl refl,
    run_jobs-log_all n
        (log_one r (record { t_begin = time w; t_end = time (run_program (tick w)) }))
        (tick (run_program (tick w))),
  )

  module _ (slot_count : ℕ) (some_slot : 0 < slot_count)
      (fits : sizeof_job_statistics * slot_count < long_mod) (n : ℕ) (w : S) (few : n < long_mod)
      (written : List JobStatistics) (room : ℕ) (enough : min n slot_count ≤ room) where
    -- Take a ring buffer that may overrun, created with memory for at least one slot, and start `n`
    -- jobs on it with a working clock. Saved to a stream with room for it, it appends the readings
    -- of the last `slot_count` jobs, oldest first, or of all of them if they are fewer; it reports
    -- `n` writes, the jobs before those as lost, and the position of the first one saved as oldest.
    pub overrun_history :
        (r r' : JobstatsRingbuf) × (jobstats_ringbuf_create (true, true) slot_count false ≡ some r)
        × (run_jobs n r w ≡ some r')
        × (r'.slot_count ≡ slot_count)
        × Reports (readings n w) r' written room
    overrun_history =
        let (r, made, size, fresh) = create-IsFresh slot_count false some_slot fits in
        let r' = log_all r (readings n w) in
        let same : r'.slot_count ≡ slot_count = slot_count-log_all r (readings n w) ∙ size in
        let len = length-readings n w in
        (
          r,
          r',
          made,
          run_jobs-log_all n r w,
          same,
          Holds-Reports (readings n w) r' written room
              (log_all-Holds (readings n w) [] r (inl fresh) (omega (arith, size))
                (omega (arith, len)))
              (omega (arith, len, same)) (omega (arith, len)),
        )

    -- Take a ring buffer that must not overrun, created with memory for at least one slot, and
    -- start `n` jobs on it with a working clock. Saved to a stream with room for it, it appends
    -- the readings of the first `slot_count` jobs, or of all of them if they are fewer; it
    -- reports `n` writes, the jobs after those as lost, and the first job as oldest.
    pub no_overrun_history :
        (r r' : JobstatsRingbuf) × (jobstats_ringbuf_create (true, true) slot_count true ≡ some r)
        × (run_jobs n r w ≡ some r')
        × (r'.slot_count ≡ slot_count)
        × ReportsFirst (readings n w) r' written room
    no_overrun_history =
        let (r, made, size, fresh) = create-IsFresh slot_count true some_slot fits in
        let r' = log_all r (readings n w) in
        let same : r'.slot_count ≡ slot_count = slot_count-log_all r (readings n w) ∙ size in
        let len = length-readings n w in
        (
          r,
          r',
          made,
          run_jobs-log_all n r w,
          same,
          Keeps-ReportsFirst (readings n w) r' written room
              (log_all-Keeps (readings n w) [] r (inl fresh) (omega (arith, len)))
              (omega (arith, same)) (omega (arith, len, same)) (omega (arith, len)),
        )
