-- ===== src/Task/Release.antt =====
-- task.c: the two release loops of `task_start`.
use realtime_tests.Prelude.{
  ℕ, zero, suc, Bool, true, false, not, ◌&&◌, Option, List, [], ◌∷◌, ◌==◌, if◌then◌else◌,
}
use realtime_tests.Prelude.Int.{ℤ, pos, negsuc, ◌-ℤ◌}
use realtime_tests.Time.{Timespec, plus}
use realtime_tests.Job.{JobstatsRingbuf, job_start}

abbrev pub is_zero : ℤ → Bool
is_zero (pos n) = n == 0
is_zero (negsuc n) = false

-- The calls over the state of the world: `clock_nanosleep` until an absolute time, with its error
-- number; `clock_gettime`; the program of the job; and what the other threads have stored in
-- `tau->stopped`, as the loop reads it.
module _ {W : Type 0} (sleep : Timespec → W → ℕ × W) (clock : W → Option Timespec × W)
    (run_program : W → W) (is_stopped : W → Bool) where
  -- How a loop ends: with `rc`, the ring buffer and the world, and with the times that it slept
  -- until, in order. `running` is a loop out of fuel.
  pub data Loop : Type 0 where
    ended : ℤ → Option JobstatsRingbuf → W → List Timespec → Loop
    running : Loop

  abbrev pub slept : Timespec → Loop → Loop
  slept t (ended rc ring w ts) = ended rc ring w (t ∷ ts)
  slept t running = running

  -- What follows a call of `job_start`: its result is subtracted, and the conditions are tested.
  abbrev pub go_on :
      (Option JobstatsRingbuf → ℤ → W → Loop) → ℤ → ℤ × Option JobstatsRingbuf × W → Loop
  go_on next rc (failures, ring, w) =
      let rc' = rc -ℤ failures in
      let more = next ring rc' w in
      if is_zero rc' && not (is_stopped w) then more else ended rc' ring w []

  unfoldable pub task_start_periodic :
      ℕ → Timespec → Timespec → Option JobstatsRingbuf → ℤ → W → Loop
  task_start_periodic zero period next_release_time ring rc w = running
  task_start_periodic (suc fuel) period next_release_time ring rc w =
      let (e, w1) = sleep next_release_time w in
      slept next_release_time (
        go_on (task_start_periodic fuel period (plus next_release_time period)) (rc -ℤ pos e)
          (job_start clock run_program ring w1))

  -- `inside` stores into `tau->inside_aperiodic_release`.
  module _ (inside : Bool → W → W) (aperiodic_release : W → W) where
    unfoldable pub task_start_aperiodic : ℕ → Option JobstatsRingbuf → ℤ → W → Loop
    task_start_aperiodic zero ring rc w = running
    task_start_aperiodic (suc fuel) ring rc w =
        go_on (task_start_aperiodic fuel) rc
          (job_start clock run_program ring (inside false (aperiodic_release (inside true w))))
