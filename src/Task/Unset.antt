-- ===== src/Task/Unset.antt =====
-- task.c: when `finish_to_start_overhead` reads a pointer that nothing has set.
use realtime_tests.Prelude.{
  ℕ, ◌≡◌, refl, Bool, true, false, not, ◌&&◌, Option, none, some, List, [], if◌then◌else◌,
  Bool-cases, inl, inr, ◌∙◌, arith,
}
use realtime_tests.Prelude.Int.{ℤ, pos, negsuc}
use realtime_tests.Time.{Timespec, TimeUnit, to_utility_time_fields, plus}
use realtime_tests.Job.{JobStatistics, JobstatsRingbuf, jobstats_ringbuf_create}
use realtime_tests.Job.Saving.{Save, ok, fault, out_of_fuel, jobstats_ringbuf_save}
use realtime_tests.File.{InStream}
use realtime_tests.Stats.{job_statistics_read}
use realtime_tests.Task.Release.{ended, running, is_zero}
use realtime_tests.Task.Overhead.{
  ProbeLoop, Measured, measured, unset_read, not_ended, after_join, out, unset, null, not_entered,
  second_read, first_read, after_save, probe, after_loop, overhead_measurement, with_ring,
  overhead_measurement_thread, finish_to_start_overhead,
}

-- Whether a pointer is read that nothing has set.
abbrev pub is_unset : Measured → Bool
is_unset (measured rc x) = false
is_unset unset_read = true
is_unset not_ended = false

after_join-unset : (joins : Bool) (x : Measured) → is_unset (after_join joins x) ≡ is_unset x
after_join-unset joins (measured rc x) = ground arith
after_join-unset joins unset_read = refl
after_join-unset joins not_ended = ground arith

-- The tests in front of the part that sets the pointers.
gates-set :
    (locked entered has_file : Bool) (e : ℤ) (rest : Measured)
    → is_unset rest ≡ false
    → is_unset (
        if not locked
        then out unset unset (measured (negsuc 1) none)
        else if not entered
        then out unset unset (not_entered e)
        else if not has_file
        then out null null (measured (negsuc 1) none)
        else rest)
      ≡ not (locked && entered)
gates-set locked entered has_file e rest h = ground (arith, h)

first_read-set :
    (found : List ℕ) (t_release : Timespec) (x : ℤ × Option JobStatistics × InStream)
    → is_unset (first_read found t_release x) ≡ false
first_read-set found t_release (pos n, some s1, s) = second_set (job_statistics_read found s)
  where
    second_set :
        (y : ℤ × Option JobStatistics × InStream) → is_unset (second_read t_release s1 y) ≡ false
    second_set (pos n, some s2, s) = refl
    second_set (pos n, none, s) = refl
    second_set (negsuc n, y, s) = refl
first_read-set found t_release (pos n, none, s) = refl
first_read-set found t_release (negsuc n, x, s) = refl

after_save-set :
    (rewinds : Bool) (found : List ℕ) (t_release : Timespec) (x : Save)
    → is_unset (after_save rewinds found t_release x) ≡ false
after_save-set rewinds found t_release (ok (rc, out)) =
    ground (arith, first_read-set found t_release)
after_save-set rewinds found t_release fault = refl
after_save-set rewinds found t_release out_of_fuel = refl

module _ {W : Type 0} (sleep : Timespec → W → ℕ × W) (clock : W → Option Timespec × W) where
  after_loop-set :
      (room : ℕ) (rewinds : Bool) (found : List ℕ) (t_release : Timespec)
      (x : ProbeLoop sleep clock)
      → is_unset (after_loop sleep clock room rewinds found t_release x) ≡ false
  after_loop-set room rewinds found t_release running = refl
  after_loop-set room rewinds found t_release (ended rc none v ts) = refl
  after_loop-set room rewinds found t_release (ended rc (some r) v ts) = ground (
    arith,
    after_save-set rewinds found t_release
        (jobstats_ringbuf_save r (record { written = []; room = room })),
  )

  probe-set :
      (fuel : ℕ) (aperiodic : Bool) (r : JobstatsRingbuf) (room : ℕ) (rewinds : Bool)
      (found : List ℕ) (x : Option Timespec × W)
      → is_unset (probe sleep clock fuel aperiodic r room rewinds found x) ≡ false
  probe-set fuel aperiodic r room rewinds found (none, w) = refl
  probe-set fuel aperiodic r room rewinds found (some t_0, w) =
      let t_release = plus t_0 (to_utility_time_fields 100 TimeUnit.ms) in
      after_loop-set room rewinds found t_release (
        overhead_measurement sleep clock fuel aperiodic (to_utility_time_fields 0 TimeUnit.ns)
          t_release r (record { world = w; stop_counter = pos 1; stopped = false }))

  with_ring-set :
      (fuel : ℕ) (aperiodic : Bool) (room : ℕ) (rewinds : Bool) (found : List ℕ) (w : W)
      (x : Option JobstatsRingbuf)
      → is_unset (with_ring sleep clock fuel aperiodic room rewinds found w x) ≡ false
  with_ring-set fuel aperiodic room rewinds found w none = refl
  with_ring-set fuel aperiodic room rewinds found w (some r) =
      probe-set fuel aperiodic r room rewinds found (clock w)

  -- Whatever else succeeds or fails, `finish_to_start_overhead` has its thread read a pointer that
  -- nothing has set exactly if the thread is created, and could not be locked to the CPU or did
  -- not get the scheduler and its priority; also if the thread cannot be joined.
  pub finish_to_start_overhead_unset :
      (fuel : ℕ) (aperiodic creates joins : Bool) (locked entered : ℤ) (has_file : Bool)
      (has_memory : Bool × Bool) (room : ℕ) (rewinds : Bool) (found : List ℕ) (w : W)
      → is_unset (
          finish_to_start_overhead creates joins (
            overhead_measurement_thread sleep clock fuel aperiodic locked entered has_file
              has_memory room rewinds found w))
        ≡ (creates && not (is_zero locked && is_zero entered))
  unfolding finish_to_start_overhead overhead_measurement_thread
  finish_to_start_overhead_unset fuel aperiodic creates joins locked entered has_file has_memory
        room rewinds found w =
      let thread = gates-set (is_zero locked) (is_zero entered) has_file entered _ (
        with_ring-set fuel aperiodic room rewinds found w
          (jobstats_ringbuf_create has_memory 2 false)) in
      elim (Bool-cases creates) [
        | inl created ↦ rw created (after_join-unset joins _ ∙ thread)
        | inr refused ↦ rw refused refl
      ]
