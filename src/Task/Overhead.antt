-- ===== src/Task/Overhead.antt =====
-- task.c: `finish_to_start_overhead`, which runs a task of two jobs that do nothing and reads what
-- was logged of them.
use realtime_tests.Prelude.{
  ℕ, Bool, true, false, not, ◌&&◌, Option, none, some, List, [], if◌then◌else◌,
}
use realtime_tests.Prelude.Int.{ℤ, pos, negsuc, ◌-ℤ◌, is_minus_one}
use realtime_tests.Time.{
  Timespec, UtilityTime, TimeUnit, to_utility_time_fields, zeroed, plus, minus,
}
use realtime_tests.Job.{JobStatistics, JobstatsRingbuf, jobstats_ringbuf_create}
use realtime_tests.Job.Saving.{Save, ok, fault, out_of_fuel, jobstats_ringbuf_save}
use realtime_tests.Stats.{job_statistics_read}
use realtime_tests.File.{InStream}
use realtime_tests.Task.Flush.{encode_jobs}
use realtime_tests.Task.Release.{
  is_zero, Loop, ended, running, task_start_periodic, task_start_aperiodic,
}

-- The world with the members of the task that the program of its jobs changes.
pub record Probe (W : Type 0) : Type 0 where
  pub world : W
  pub stop_counter : ℤ
  pub stopped : Bool

-- What a pointer in `tau` is: nothing has set it yet, NULL, or an object.
pub data Pointer : Type 0 where
  unset null set : Pointer

-- The result of the thread, -2 before it is set otherwise, and the overhead; or the read of a
-- pointer in `tau` behind the label `out`, from where nothing has set it.
pub data Measured : Type 0 where
  measured : ℤ → Option Timespec → Measured
  unset_read : Measured
  not_ended : Measured

abbrev pub failed : ℤ → Measured
failed rc = measured rc none

abbrev pub is_initialised : Pointer → Bool
is_initialised unset = false
is_initialised null = true
is_initialised set = true

-- The part behind the label `out`, which tests both pointers.
abbrev pub out : (stats_ringbuf stats_log : Pointer) → Measured → Measured
out stats_ringbuf stats_log x =
    if is_initialised stats_ringbuf && is_initialised stats_log then x else unset_read

-- What `params->exit_status` is where the thread does not get the scheduler.
abbrev pub not_entered : ℤ → Measured
not_entered entered = failed (if is_minus_one entered then negsuc 0 else negsuc 1)

abbrev pub variable : Timespec → UtilityTime
variable t = record zeroed { t = t }

-- The sum of the release-to-start overhead and the finish-to-start overhead.
abbrev pub overhead_of : Timespec → JobStatistics → JobStatistics → Timespec
overhead_of t_release s1 s2 =
    plus (minus (variable s1.t_begin) (variable t_release))
      (minus (variable s2.t_begin) (variable s1.t_end))

-- The two reads from the temporary file.
abbrev pub second_read : Timespec → JobStatistics → ℤ × Option JobStatistics × InStream → Measured
second_read t_release s1 (pos n, some s2, s) = measured (pos 0) (some (overhead_of t_release s1 s2))
second_read t_release s1 (pos n, none, s) = failed (negsuc 1)
second_read t_release s1 (negsuc n, x, s) = failed (negsuc 1)

abbrev pub first_read : List ℕ → Timespec → ℤ × Option JobStatistics × InStream → Measured
first_read found t_release (pos n, some s1, s) =
    second_read t_release s1 (job_statistics_read found s)
first_read found t_release (pos n, none, s) = failed (negsuc 1)
first_read found t_release (negsuc n, x, s) = failed (negsuc 1)

-- What follows the saving of the ring buffer.
abbrev pub after_save : Bool → List ℕ → Timespec → Save → Measured
after_save rewinds found t_release (ok (rc, out)) =
    let s : InStream = record {
      rest = encode_jobs out.written;
      broken = false;
      eof = false;
      error = false;
    } in
    let reads = first_read found t_release (job_statistics_read found s) in
    if not (is_zero rc) then failed (negsuc 1) else if not rewinds then failed (negsuc 1) else reads
after_save rewinds found t_release fault = not_ended
after_save rewinds found t_release out_of_fuel = not_ended

module _ {W : Type 0} (sleep : Timespec → W → ℕ × W) (clock : W → Option Timespec × W) where
  abbrev pub probe_sleep : Timespec → Probe W → ℕ × Probe W
  probe_sleep t v = let (e, w) = sleep t v.world in (e, record v { world = w })

  abbrev pub probe_clock : Probe W → Option Timespec × Probe W
  probe_clock v = let (t, w) = clock v.world in (t, record v { world = w })

  abbrev pub run_program_stop_task : Probe W → Probe W
  run_program_stop_task v = record v {
    stopped = is_zero v.stop_counter;
    stop_counter = v.stop_counter -ℤ pos 1;
  }

  abbrev pub is_stopped : Probe W → Bool
  is_stopped v = v.stopped

  abbrev pub ProbeLoop : Type 0
  ProbeLoop = Loop probe_sleep probe_clock run_program_stop_task is_stopped

  -- `overhead_measurement`; nothing reads `inside_aperiodic_release`, and the release does nothing.
  unfoldable pub overhead_measurement :
      ℕ → Bool → Timespec → Timespec → JobstatsRingbuf → Probe W → ProbeLoop
  overhead_measurement fuel true period next_release_time r v =
      task_start_aperiodic probe_sleep probe_clock run_program_stop_task is_stopped (λ b u. u)
        (λ u. u) fuel (some r) (pos 0) v
  overhead_measurement fuel false period next_release_time r v =
      task_start_periodic probe_sleep probe_clock run_program_stop_task is_stopped fuel period
        next_release_time (some r) (pos 0) v

  -- What follows the loop; the file takes `room` blocks.
  abbrev pub after_loop : ℕ → Bool → List ℕ → Timespec → ProbeLoop → Measured
  after_loop room rewinds found t_release running = not_ended
  after_loop room rewinds found t_release (ended rc none v ts) = not_ended
  after_loop room rewinds found t_release (ended rc (some r) v ts) =
      let saved =
        after_save rewinds found t_release
          (jobstats_ringbuf_save r (record { written = []; room = room })) in
      if not (is_zero rc) then failed (negsuc 1) else saved

  -- The part of the thread behind the current time `t_0`.
  abbrev pub probe : ℕ → Bool → JobstatsRingbuf → ℕ → Bool → List ℕ → Option Timespec × W → Measured
  probe fuel aperiodic r room rewinds found (none, w) = failed (negsuc 1)
  probe fuel aperiodic r room rewinds found (some t_0, w) =
      let t_release = plus t_0 (to_utility_time_fields 100 TimeUnit.ms) in
      after_loop room rewinds found t_release (
        overhead_measurement fuel aperiodic (to_utility_time_fields 0 TimeUnit.ns) t_release r
          (record { world = w; stop_counter = pos 1; stopped = false }))

  abbrev pub with_ring : ℕ → Bool → ℕ → Bool → List ℕ → W → Option JobstatsRingbuf → Measured
  with_ring fuel aperiodic room rewinds found w none = out null set (failed (negsuc 1))
  with_ring fuel aperiodic room rewinds found w (some r) =
      let result = probe fuel aperiodic r room rewinds found (clock w) in out set set result

  -- `overhead_measurement_thread`: `locked` and `entered` are what `lock_me_to_cpu` and
  -- `sched_fifo_enter_max` return, `has_file` and `has_memory` tell of `tmpfile` and the ring
  -- buffer.
  unfoldable pub overhead_measurement_thread :
      ℕ → Bool → (locked entered : ℤ) → Bool → Bool × Bool → ℕ → Bool → List ℕ → W → Measured
  overhead_measurement_thread fuel aperiodic locked entered has_file has_memory room rewinds found
        w =
      let rest =
        with_ring fuel aperiodic room rewinds found w
          (jobstats_ringbuf_create has_memory 2 false) in
      if not (is_zero locked)
      then out unset unset (failed (negsuc 1))
      else if not (is_zero entered)
      then out unset unset (not_entered entered)
      else if not has_file
      then out null null (failed (negsuc 1))
      else rest

abbrev pub result_of : Measured → Measured
result_of (measured rc x) = if is_zero rc then measured rc x else failed rc
result_of unset_read = unset_read
result_of not_ended = not_ended

-- What is returned of the thread, which runs to its end also where it cannot be joined.
abbrev pub after_join : (joins : Bool) → Measured → Measured
after_join joins unset_read = unset_read
after_join joins (measured rc x) = if joins then result_of (measured rc x) else failed (negsuc 1)
after_join joins not_ended = if joins then not_ended else failed (negsuc 1)

-- The function that starts the thread and joins it.
unfoldable pub finish_to_start_overhead : (creates joins : Bool) → Measured → Measured
finish_to_start_overhead creates joins thread =
    let result = after_join joins thread in if creates then result else failed (negsuc 1)
