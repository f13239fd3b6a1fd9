-- ===== src/Task/Periodic.antt =====
-- task.c: when a periodic task releases its jobs, and what it logs of them.
use realtime_tests.Prelude.{
  ℕ, zero, suc, ◌+◌, ◌*◌, ◌<◌, ◌≤◌, ◌≡◌, refl, ap, ◌∙◌, Bool, true, false, Option, some, List, [],
  ◌∷◌, get_elem?, length, long_half, arith,
}
use realtime_tests.Prelude.Int.{ℤ, pos, ◌-ℤ◌}
use realtime_tests.Time.{Timespec, billion, plus, IsNormal, to_ns}
use realtime_tests.Time.Exact.{times, times_exact, plus_exact}
use realtime_tests.Job.{JobStatistics, JobstatsRingbuf}
use realtime_tests.Job.Logged.{log_one, log_all}
use realtime_tests.Job.Started.{job_start-log_one}
use realtime_tests.Job.History.{working}
use realtime_tests.Task.{TaskParams}
use realtime_tests.Task.Create.{new_task}
use realtime_tests.Task.Release.{Loop, ended, slept, go_on, task_start_periodic}

-- The times to sleep until: each is the one before it plus a period.
unfoldable pub release_times : ℕ → Timespec → Timespec → List Timespec
release_times zero next period = []
release_times (suc n) next period = next ∷ release_times n (plus next period) period

release_times_lem :
    (n k : ℕ) (next period : Timespec)
    → k < n
    → get_elem? (release_times n next period) k ≡ some (times k next period)
unfolding release_times times
release_times_lem zero k next period lt = absurd (omega arith)
release_times_lem (suc n) zero next period lt = refl
release_times_lem (suc n) (suc k) next period lt =
    release_times_lem n k (plus next period) period (omega arith)

length-release_times : (n : ℕ) (next period : Timespec) → length (release_times n next period) ≡ n
unfolding release_times
length-release_times zero next period = refl
length-release_times (suc n) next period = ap suc (length-release_times n (plus next period) period)

mul_mono : (k n m : ℕ) → k ≤ n → k * m ≤ n * m
mul_mono k n m le = grind arith

-- The k-th release of a task lies at `t_0` plus the offset plus k periods, to the nanosecond.
abbrev pub ReleasesAt : TaskParams → ℕ → List Timespec → Type 0
ReleasesAt p k ts =
    (t : Timespec) × (get_elem? ts k ≡ some t)
    × (to_ns t ≡ to_ns p.t_0 + to_ns p.offset + k * to_ns p.period)

release_times-ReleasesAt :
    (p : TaskParams) (ring : Option JobstatsRingbuf) (n k : ℕ)
    → IsNormal p.t_0
    → IsNormal p.offset
    → IsNormal p.period
    → to_ns p.t_0 + to_ns p.offset + k * to_ns p.period < long_half * billion
    → k < n
    → ReleasesAt p k (release_times n ((new_task p ring).next_release_time) p.period)
unfolding new_task
release_times-ReleasesAt p ring n k nt noff np fits lt =
    let (e, normal) = plus_exact p.t_0 p.offset nt noff (omega arith) in
    let (e', normal') = times_exact k (plus p.t_0 p.offset) p.period normal np (omega (arith, e)) in
    (
      times k (plus p.t_0 p.offset) p.period,
      release_times_lem n k (plus p.t_0 p.offset) p.period lt,
      omega (arith, e, e'),
    )

-- A world in which sleeping and the clock always work.
module _ {W : Type 0} (wake : Timespec → W → W) (time : W → Timespec) (tick run_program : W → W)
    (is_stopped : W → Bool) where
  abbrev pub sound_sleep : Timespec → W → ℕ × W
  sound_sleep t w = (0, wake t w)

  -- The world after the first release, and after the first `n`.
  abbrev pub released : Timespec → W → W
  released next w = tick (run_program (tick (wake next w)))

  unfoldable pub world_after : ℕ → Timespec → Timespec → W → W
  world_after zero next period w = w
  world_after (suc n) next period w = world_after n (plus next period) period (released next w)

  -- The two readings of the clock around each of `n` jobs.
  unfoldable pub job_times : ℕ → Timespec → Timespec → W → List JobStatistics
  job_times zero next period w = []
  job_times (suc n) next period w =
      record { t_begin = time (wake next w); t_end = time (run_program (tick (wake next w))) }
      ∷ job_times n (plus next period) period (released next w)

  abbrev loop :
      ℕ
      → Timespec
      → Timespec
      → Option JobstatsRingbuf
      → ℤ
      → W
      → Loop sound_sleep (working time tick run_program) run_program is_stopped
  loop = task_start_periodic sound_sleep (working time tick run_program) run_program is_stopped

  -- One release with a sound clock.
  step :
      (fuel : ℕ) (next period : Timespec) (r : JobstatsRingbuf) (w : W)
      → loop (suc fuel) period next (some r) (pos 0) w
        ≡ slept sound_sleep (working time tick run_program) run_program is_stopped next (
            go_on sound_sleep
              (working time tick run_program)
              run_program
              is_stopped
              (loop fuel period (plus next period))
              (pos 0 -ℤ pos 0)
              (
                pos 0,
                some (
                    log_one r (record {
                      t_begin = time (wake next w);
                      t_end = time (run_program (tick (wake next w)));
                    })),
                released next w,
              ))
  unfolding task_start_periodic
  step fuel next period r w =
      ap
        (λ x. slept sound_sleep (working time tick run_program) run_program is_stopped next (
          go_on sound_sleep (working time tick run_program) run_program is_stopped
            (loop fuel period (plus next period)) (pos 0 -ℤ pos 0) x))
        (job_start-log_one (working time tick run_program) run_program r (wake next w)
          (time (wake next w)) (time (run_program (tick (wake next w)))) refl refl)

  pub periodic_lem :
      (fuel n : ℕ) (next period : Timespec) (r : JobstatsRingbuf) (w : W)
      → ((k : ℕ) → k < n → is_stopped (world_after (suc k) next period w) ≡ false)
      → is_stopped (world_after (suc n) next period w) ≡ true
      → n < fuel
      → loop fuel period next (some r) (pos 0) w
        ≡ ended
            (pos 0)
            (some (log_all r (job_times (suc n) next period w)))
            (world_after (suc n) next period w)
            (release_times (suc n) next period)
  unfolding world_after job_times release_times log_all ◌-ℤ◌
  periodic_lem zero n next period r w going stop enough = absurd (omega arith)
  periodic_lem (suc fuel) zero next period r w going stop enough =
      step fuel next period r w ∙ ground (arith, stop)
  periodic_lem (suc fuel) (suc n) next period r w going stop enough =
      let s : JobStatistics = record {
        t_begin = time (wake next w);
        t_end = time (run_program (tick (wake next w)));
      } in
      let ih =
        periodic_lem fuel n (plus next period) period (log_one r s) (released next w)
          (λ k lt. going (suc k) (omega arith)) stop (omega arith) in
      let first = going zero (omega arith) in step fuel next period r w ∙ ground (arith, first, ih)

  -- A periodic task with proper times, on a sound clock, that is told to stop during its n-th job
  -- (counted from 0) and not before, does end after that job, if its last release fits: it
  -- returns 0, each job was started after sleeping until its release, which is at `t_0` plus the
  -- offset plus as many periods, and the ring buffer has logged the two clock readings of every
  -- job in order.
  pub task_start_periodic_lem :
      (fuel n : ℕ) (p : TaskParams) (r : JobstatsRingbuf) (w : W)
      → IsNormal p.t_0
      → IsNormal p.offset
      → IsNormal p.period
      → to_ns p.t_0 + to_ns p.offset + n * to_ns p.period < long_half * billion
      → ((k : ℕ)
          → k < n
          → is_stopped (world_after (suc k) ((new_task p (some r)).next_release_time) p.period w)
            ≡ false)
      → is_stopped (world_after (suc n) ((new_task p (some r)).next_release_time) p.period w) ≡ true
      → n < fuel
      → (ts : List Timespec) × (task_start_periodic sound_sleep
            (working time tick run_program)
            run_program
            is_stopped
            fuel
            p.period
            ((new_task p (some r)).next_release_time)
            (some r)
            (pos 0)
            w
          ≡ ended
              (pos 0)
              (some (
                log_all r (job_times (suc n) ((new_task p (some r)).next_release_time) p.period w)))
              (world_after (suc n) ((new_task p (some r)).next_release_time) p.period w)
              ts)
        × (length ts ≡ suc n)
        × ((k : ℕ) → k ≤ n → ReleasesAt p k ts)
  task_start_periodic_lem fuel n p r w nt noff np fits going stop enough =
      let next = (new_task p (some r)).next_release_time in
      (
        release_times (suc n) next p.period,
        periodic_lem fuel n next p.period r w going stop enough,
        length-release_times (suc n) next p.period,
        λ k le.
            release_times-ReleasesAt p (some r) (suc n) k nt noff np
              (omega (arith, mul_mono k n (to_ns p.period) le)) (omega arith),
      )
