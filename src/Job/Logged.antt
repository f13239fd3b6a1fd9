-- ===== src/Job/Logged.antt =====
-- job.c: logging whole statistics, one after the other, into a ring buffer that was just created
-- and has not yet gone round.
use realtime_tests.Prelude.{
  ℕ, zero, suc, ◌+◌, ◌*◌, ◌/◌, ◌%◌, ◌<◌, ◌≡◌, refl, ap, Bool, true, false, some, List, [], ◌∷◌,
  ◌++◌, append_assoc, length, length-append, replicate, length-replicate, add_long, long_mod, arith,
}
use realtime_tests.Job.{
  JobStatistics, no_statistics, JobstatsRingbuf, sizeof_job_statistics, jobstats_ringbuf_create,
  claim_slot, modify, write_slot,
}

-- One job whose two times are `s`.
unfoldable pub log_one : JobstatsRingbuf → JobStatistics → JobstatsRingbuf
unfolding claim_slot write_slot
log_one r s = let (slot, r') = claim_slot r in write_slot slot (λ _. s) r'

unfoldable pub log_all : JobstatsRingbuf → List JobStatistics → JobstatsRingbuf
log_all r [] = r
log_all r (s ∷ ss) = log_all (log_one r s) ss

pub modify-append :
    (front : List JobStatistics) (x : JobStatistics) (back : List JobStatistics) (i : ℕ)
    (f : JobStatistics → JobStatistics)
    → i ≡ length front
    → modify (front ++ (x ∷ back)) i f ≡ front ++ (f x ∷ back)
modify-append [] x back zero f e = refl
modify-append [] x back (suc i) f e = absurd (omega arith)
modify-append (y ∷ front) x back zero f e = absurd (omega arith)
modify-append (y ∷ front) x back (suc i) f e =
    ap (λ l. y ∷ l) (modify-append front x back i f (omega arith))

-- The buffer holds the whole history, in its first slots.
pub record IsFresh (disabled : Bool) (hist : List JobStatistics) (r : JobstatsRingbuf)
    : Type 0 where
  pub unused : List JobStatistics
  pub slots : r.ringbuf ≡ hist ++ unused
  pub next : r.next ≡ length hist
  pub size : r.slot_count ≡ length hist + length unused
  pub small : r.slot_count < long_mod
  pub flag : r.overrun_disabled ≡ disabled
  pub quiet : r.overrun ≡ false
  pub rounds : r.overrun_count ≡ 0
  pub count : r.write_count ≡ length hist

-- With memory, and a size that `size_t` holds, a new buffer is fresh and has all its slots.
pub create-IsFresh :
    (slot_count : ℕ) (disabled : Bool)
    → 0 < slot_count
    → sizeof_job_statistics * slot_count < long_mod
    → (r : JobstatsRingbuf) × (jobstats_ringbuf_create (true, true) slot_count disabled ≡ some r)
      × (r.slot_count ≡ slot_count)
      × IsFresh disabled [] r
unfolding jobstats_ringbuf_create
create-IsFresh slot_count disabled pos fits =
    let size : ℕ = sizeof_job_statistics * slot_count % long_mod / sizeof_job_statistics in
    let r : JobstatsRingbuf = record {
      ringbuf = replicate size no_statistics;
      slot_count = slot_count;
      next = 0;
      overrun_count = 0;
      overrun_disabled = disabled;
      overrun = false;
      write_count = 0;
    } in
    (
      r,
      ground arith,
      refl,
      record {
        unused = replicate size no_statistics;
        slots = refl;
        next = refl;
        size = omega (arith, length-replicate size no_statistics);
        small = omega arith;
        flag = refl;
        quiet = refl;
        rounds = refl;
        count = refl;
      },
    )

-- While a slot is unused, logging takes the first such slot.
pub log_one-IsFresh :
    (d : Bool) (hist : List JobStatistics) (r : JobstatsRingbuf) (s : JobStatistics)
    (x : JobStatistics) (back : List JobStatistics) (f : IsFresh d hist r)
    → f.unused ≡ x ∷ back
    → IsFresh d (hist ++ (s ∷ [])) (log_one r s)
unfolding log_one claim_slot write_slot add_long
log_one-IsFresh d hist r s x back f e =
    let len : length f.unused ≡ suc (length back) = ap length e in
    let longer = length-append hist (s ∷ []) in
    record {
      unused = back;
      slots =
          ground
            (arith, modify-append hist x back r.next (λ _. s), append_assoc hist (s ∷ []) back);
      next = ground arith;
      size = ground arith;
      small = ground arith;
      flag = ground arith;
      quiet = ground arith;
      rounds = ground arith;
      count = ground arith;
    }
