-- ===== src/Job/Started.antt =====
-- job.c: `job_start` against the logging of whole statistics, and what it returns.
use realtime_tests.Prelude.{ℕ, zero, suc, ◌≡◌, refl, ap, Option, none, some, List, [], ◌∷◌, arith}
use realtime_tests.Prelude.Int.{pos, ◌-ℤ◌}
use realtime_tests.Time.{Timespec}
use realtime_tests.Job.{
  JobStatistics, JobstatsRingbuf, claim_slot, modify, write_slot, stamp, job_start,
}
use realtime_tests.Job.Logged.{log_one}

abbrev stats : Timespec → Timespec → JobStatistics
stats b e = record { t_begin = b; t_end = e }

modify_both :
    (xs : List JobStatistics) (i : ℕ) (b e : Timespec)
    → modify (modify xs i (λ s. record s { t_begin = b })) i (λ s. record s { t_end = e })
      ≡ modify xs i (λ _. stats b e)
modify_both [] i b e = refl
modify_both (x ∷ xs) zero b e = refl
modify_both (x ∷ xs) (suc i) b e = ap (λ l. x ∷ l) (modify_both xs i b e)

write_both :
    (slot : Option ℕ) (b e : Timespec) (r : JobstatsRingbuf)
    → write_slot slot
        (λ s. record s { t_end = e })
        (write_slot slot (λ s. record s { t_begin = b }) r)
      ≡ write_slot slot (λ _. stats b e) r
unfolding write_slot
write_both none b e r = refl
write_both (some i) b e r = λ k. record r { ringbuf = modify_both r.ringbuf i b e k }

-- The number of failures among two calls of the clock.
abbrev pub failures : Option Timespec → Option Timespec → ℕ
failures none none = 2
failures none (some _) = 1
failures (some _) none = 1
failures (some _) (some _) = 0

module _ {S : Type 0} (clock : S → Option Timespec × S) (run_program : S → S) where
  -- The state of the world at the second call of the clock, where jobs are logged.
  abbrev pub finishing : S → S
  finishing w = run_program (clock w).1

  -- `job_start` runs the program once whatever the clock does, between its two calls, and returns
  -- the number of calls that failed: a failure is reported by a positive number.
  pub job_start_result :
      (r : JobstatsRingbuf) (w : S)
      → ((job_start clock run_program (some r) w).0
          ≡ pos (failures (clock w).0 (clock (finishing w)).0))
        × ((job_start clock run_program (some r) w).2 ≡ (clock (finishing w)).1)
        × (job_start clock run_program none w ≡ (pos 0, none, run_program w))
  unfolding job_start stamp ◌-ℤ◌
  job_start_result r w = (ground arith, ground arith, refl)

  -- With a working clock `job_start` logs exactly the two times that it read.
  pub job_start-log_one :
      (r : JobstatsRingbuf) (w : S) (b e : Timespec)
      → (clock w).0 ≡ some b
      → (clock (finishing w)).0 ≡ some e
      → job_start clock run_program (some r) w
        ≡ (pos 0, some (log_one r (stats b e)), (clock (finishing w)).1)
  unfolding job_start stamp log_one ◌-ℤ◌
  job_start-log_one r w b e eb ee = ground (arith, write_both (claim_slot r).0 b e (claim_slot r).1)
