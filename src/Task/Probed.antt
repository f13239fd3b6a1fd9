-- ===== src/Task/Probed.antt =====
-- task.c: the overhead that `finish_to_start_overhead` measures.
use realtime_tests.Prelude.{
  ℕ, zero, suc, ◌+◌, ◌*◌, ◌-◌, ◌<◌, ◌≤◌, ◌≡◌, refl, ap, ◌∙◌, true, false, some, List, [], ◌∷◌, ◌++◌,
  add_long, long_half, arith,
}
use realtime_tests.Prelude.Int.{pos, ◌-ℤ◌}
use realtime_tests.Time.{
  Timespec, TimeUnit, to_utility_time_fields, billion, IsNormal, to_ns, plus, minus,
}
use realtime_tests.Time.Exact.{plus_exact, minus_exact, to_utility_time_fields_exact}
use realtime_tests.Job.{
  JobStatistics, JobstatsRingbuf, jobstats_ringbuf_create, claim_slot, write_slot,
}
use realtime_tests.Job.Saving.{ok, jobstats_ringbuf_save, save_loop}
use realtime_tests.Job.Logged.{log_one, log_all}
use realtime_tests.Job.History.{working}
use realtime_tests.Stats.{encode_job_statistics}
use realtime_tests.Stats.Block.{Fits, job_statistics_read-encode}
use realtime_tests.Task.Flush.{encode_jobs}
use realtime_tests.Task.Release.{ended}
use realtime_tests.Task.Periodic.{world_after, job_times, periodic_lem}
use realtime_tests.Task.Overhead.{
  Probe, measured, variable, overhead_of, after_join, second_read, first_read, after_save,
  is_stopped, run_program_stop_task, after_loop, overhead_measurement, with_ring,
  overhead_measurement_thread, finish_to_start_overhead,
}

-- A new ring buffer of two slots saves two jobs.
two_jobs_saved :
    (s1 s2 : JobStatistics) (room : ℕ)
    → 2 ≤ room
    → (r : JobstatsRingbuf) × (jobstats_ringbuf_create (true, true) 2 false ≡ some r)
      × (jobstats_ringbuf_save (log_all r (s1 ∷ s2 ∷ [])) (record { written = []; room = room })
          ≡ ok (pos 0, record { written = s1 ∷ s2 ∷ []; room = room - 1 - 1 }))
unfolding jobstats_ringbuf_create log_all log_one claim_slot write_slot jobstats_ringbuf_save
    save_loop add_long
two_jobs_saved s1 s2 room fits = (_, refl, ground arith)

-- Two blocks are read back, one after the other.
reads_back :
    (found : List ℕ) (t_release : Timespec) (s1 s2 : JobStatistics) (room : ℕ)
    → Fits s1.t_begin
    → Fits s1.t_end
    → Fits s2.t_begin
    → Fits s2.t_end
    → after_save true found t_release (ok (pos 0, record { written = s1 ∷ s2 ∷ []; room = room }))
      ≡ measured (pos 0) (some (overhead_of t_release s1 s2))
unfolding encode_jobs
reads_back found t_release s1 s2 room b1 e1 b2 e2 =
    ap (first_read found t_release)
      (job_statistics_read-encode found _ s1 (encode_job_statistics s2 ++ []) refl b1 e1 refl)
    ∙ ap (second_read t_release s1) (job_statistics_read-encode found _ s2 [] refl b2 e2 refl)

IsNormal-Fits : (t : Timespec) → IsNormal t → Fits t
IsNormal-Fits t n = (ground arith, ground arith)

overhead_of_exact :
    (t_release : Timespec) (s1 s2 : JobStatistics)
    → IsNormal t_release
    → IsNormal s1.t_begin
    → IsNormal s1.t_end
    → IsNormal s2.t_begin
    → to_ns s1.t_begin + to_ns s2.t_begin < long_half * billion
    → to_ns (overhead_of t_release s1 s2)
      ≡ (to_ns s1.t_begin - to_ns t_release) + (to_ns s2.t_begin - to_ns s1.t_end)
overhead_of_exact t_release s1 s2 nr b1 e1 b2 small =
    let (late, nlate) = minus_exact (variable s1.t_begin) (variable t_release) b1 nr in
    let (gap, ngap) = minus_exact (variable s2.t_begin) (variable s1.t_end) b2 e1 in
    let (sum, nsum) =
      plus_exact (minus (variable s1.t_begin) (variable t_release))
        (minus (variable s2.t_begin) (variable s1.t_end)) nlate ngap
        (omega (arith, late, gap, small)) in
    omega (arith, sum, late, gap)

-- Whatever holds of 0 holds of each number below 1.
below_one : (P : ℕ → Type 0) → P 0 → (k : ℕ) → k < 1 → P k
below_one P p zero lt = p
below_one P p (suc k) lt = absurd (omega (arith, lt))

-- The first release in nanoseconds.
release_lem :
    (t : Timespec)
    → IsNormal t
    → to_ns t + 100000000 < long_half * billion
    → (to_ns (plus t (to_utility_time_fields 100 TimeUnit.ms)) ≡ to_ns t + 100000000)
      × IsNormal (plus t (to_utility_time_fields 100 TimeUnit.ms))
release_lem t n early =
    let (tenth, normal) = to_utility_time_fields_exact 100 TimeUnit.ms (omega arith) in
    let (sum, nsum) = plus_exact t _ n normal (omega (arith, tenth, early)) in
    (omega (arith, sum, tenth), nsum)

-- A world in which sleeping and the clock always work.
module _ {W : Type 0} (wake : Timespec → W → W) (time : W → Timespec) (tick : W → W) where
  abbrev pub sleep : Timespec → W → ℕ × W
  sleep t w = (0, wake t w)

  -- The first release, 100 ms behind the first reading, and the one that follows at once.
  abbrev pub release : W → Timespec
  release w = plus (time w) (to_utility_time_fields 100 TimeUnit.ms)

  abbrev pub next_release : W → Timespec
  next_release w = plus (release w) (to_utility_time_fields 0 TimeUnit.ns)

  -- The worlds when the first job starts and has ended, and when the second one starts.
  abbrev pub at_start : W → W
  at_start w = wake (release w) (tick w)

  abbrev pub at_end : W → W
  at_end w = tick (at_start w)

  abbrev pub at_second : W → W
  at_second w = wake (next_release w) (tick (at_end w))

  abbrev pub first_job : W → JobStatistics
  first_job w = record { t_begin = time (at_start w); t_end = time (at_end w) }

  abbrev pub second_job : W → JobStatistics
  second_job w = record { t_begin = time (at_second w); t_end = time (tick (at_second w)) }

  abbrev start : W → Probe W
  start w = record { world = tick w; stop_counter = pos 1; stopped = false }

  -- The program of the jobs stops the task during the second one.
  two_jobs :
      (fuel : ℕ) (r : JobstatsRingbuf) (w : W)
      → 1 < fuel
      → (v : Probe W) × (ts : List Timespec) × (overhead_measurement sleep
            (working time tick (λ u. u))
            fuel
            false
            (to_utility_time_fields 0 TimeUnit.ns)
            (release w)
            r
            (start w)
          ≡ ended (pos 0) (some (log_all r (first_job w ∷ second_job w ∷ []))) v ts)
  unfolding overhead_measurement world_after job_times ◌-ℤ◌
  two_jobs fuel r w enough = (
    _,
    _,
    periodic_lem (λ t v. record v { world = wake t v.world }) (λ v. time v.world)
        (λ v. record v { world = tick v.world })
        (run_program_stop_task sleep (working time tick (λ u. u)))
        (is_stopped sleep (working time tick (λ u. u))) fuel 1 (release w)
        (to_utility_time_fields 0 TimeUnit.ns) r (start w) (below_one _ refl) refl enough,
  )

  -- The sum that a measuring of a periodic task returns, with its log of the two jobs read back.
  thread_result :
      (fuel room : ℕ) (found : List ℕ) (w : W)
      → 1 < fuel
      → 2 ≤ room
      → IsNormal (first_job w).t_begin
      → IsNormal (first_job w).t_end
      → IsNormal (second_job w).t_begin
      → IsNormal (second_job w).t_end
      → overhead_measurement_thread sleep
          (working time tick (λ u. u))
          fuel
          false
          (pos 0)
          (pos 0)
          true
          (true, true)
          room
          true
          found
          w
        ≡ measured (pos 0) (some (overhead_of (release w) (first_job w) (second_job w)))
  unfolding overhead_measurement_thread
  thread_result fuel room found w enough fits b1 e1 b2 e2 =
      let (r, made, saved) = two_jobs_saved (first_job w) (second_job w) room fits in
      let (v, ts, ran) = two_jobs fuel r w enough in
      ap (with_ring sleep (working time tick (λ u. u)) fuel false room true found w) made
      ∙ ap (after_loop sleep (working time tick (λ u. u)) room true found (release w)) ran
      ∙ ap (after_save true found (release w)) saved
      ∙ reads_back found (release w) (first_job w) (second_job w) (room - 1 - 1)
          (IsNormal-Fits _ b1) (IsNormal-Fits _ e1) (IsNormal-Fits _ b2) (IsNormal-Fits _ e2)

  -- With a clock and a sleep that always work, a file that takes two blocks and fuel for two jobs,
  -- and normalized readings small enough not to overflow, `finish_to_start_overhead` of a periodic
  -- task returns 0 and, in nanoseconds, the time from the release to the start of the first job
  -- plus the time from the end of the first job to the start of the second one, each 0 if the
  -- clock goes back.
  pub finish_to_start_overhead_exact :
      (fuel room : ℕ) (found : List ℕ) (w : W)
      → 1 < fuel
      → 2 ≤ room
      → IsNormal (time w)
      → IsNormal (first_job w).t_begin
      → IsNormal (first_job w).t_end
      → IsNormal (second_job w).t_begin
      → IsNormal (second_job w).t_end
      → to_ns (time w) + 100000000 < long_half * billion
      → to_ns (first_job w).t_begin + to_ns (second_job w).t_begin < long_half * billion
      → (d : Timespec) × (finish_to_start_overhead true true (
            overhead_measurement_thread sleep
              (working time tick (λ u. u))
              fuel
              false
              (pos 0)
              (pos 0)
              true
              (true, true)
              room
              true
              found
              w)
          ≡ measured (pos 0) (some d))
        × (to_ns d
            ≡ (to_ns (first_job w).t_begin - (to_ns (time w) + 100000000))
              + (to_ns (second_job w).t_begin - to_ns (first_job w).t_end))
  unfolding finish_to_start_overhead
  finish_to_start_overhead_exact fuel room found w enough fits n b1 e1 b2 e2 early small =
      let (at, released) = release_lem (time w) n early in
      (
        _,
        ap (after_join true) (thread_result fuel room found w enough fits b1 e1 b2 e2),
        overhead_of_exact (release w) (first_job w) (second_job w) released b1 e1 b2 small
            ∙ ap
                (λ x.
                  (to_ns (first_job w).t_begin - x)
                  + (to_ns (second_job w).t_begin - to_ns (first_job w).t_end))
                at,
      )
