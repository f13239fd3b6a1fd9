-- ===== src/Job/Disabled.antt =====
-- job.c: a ring buffer that must not overrun. Whatever is logged, it holds the first statistics.
use realtime_tests.Prelude.{
  ℕ, suc, ◌+◌, ◌-◌, ◌<◌, ◌≤◌, ◌≡◌, ◌⊎◌, inl, inr, refl, sym, ap, ◌∙◌, true, List, [], ◌∷◌, ◌++◌,
  append_assoc, append-nil, ◌==◌, if◌then◌else◌, length, length-append, take, take-append,
  take-length, min, add_long, sub_long, long_mod, arith,
}
use realtime_tests.Prelude.Int.{pos}
use native.Mathlib.Nat.{zero-mod}
use realtime_tests.Job.{
  JobStatistics, JobstatsRingbuf, claim_slot, write_slot, jobstats_ringbuf_overrun,
  jobstats_ringbuf_oldest_pos, jobstats_ringbuf_lost_count,
}
use realtime_tests.Job.Saving.{ok, jobstats_ringbuf_save}
use realtime_tests.Job.Saved.{stream, rounds_to_end}
use realtime_tests.Job.Logged.{log_one, log_all, IsFresh, log_one-IsFresh}
use realtime_tests.Job.Counts.{save-IsFresh}

-- The buffer is full, and what came later was dropped.
pub record HasDropped (hist : List JobStatistics) (r : JobstatsRingbuf) : Type 0 where
  pub dropped : List JobStatistics
  pub some_dropped : 0 < length dropped
  pub history : hist ≡ r.ringbuf ++ dropped
  pub next : r.next ≡ r.slot_count
  pub size : r.slot_count ≡ length r.ringbuf
  pub small : r.slot_count < long_mod
  pub flag : r.overrun_disabled ≡ true
  pub loud : r.overrun ≡ true
  pub count : r.write_count ≡ length hist

-- What a buffer that must not overrun is, after the history `hist`.
abbrev pub Keeps : List JobStatistics → JobstatsRingbuf → Type 0
Keeps hist r = IsFresh true hist r ⊎ HasDropped hist r

refuse :
    (hist : List JobStatistics) (r : JobstatsRingbuf) (s : JobStatistics)
    (dropped : List JobStatistics)
    → hist ≡ r.ringbuf ++ dropped
    → r.next ≡ r.slot_count
    → r.slot_count ≡ length r.ringbuf
    → r.slot_count < long_mod
    → r.overrun_disabled ≡ true
    → r.write_count ≡ length hist
    → length hist + 1 < long_mod
    → HasDropped (hist ++ (s ∷ [])) (log_one r s)
unfolding log_one claim_slot write_slot add_long
refuse hist r s dropped history full size small flag count room =
    let longer : length (hist ++ (s ∷ [])) ≡ length hist + 1 = length-append hist (s ∷ []) in
    record {
      dropped = dropped ++ (s ∷ []);
      some_dropped = omega (arith, length-append dropped (s ∷ []));
      history = ground (arith, append_assoc r.ringbuf dropped (s ∷ []));
      next = ground arith;
      size = ground arith;
      small = ground arith;
      flag = ground arith;
      loud = ground arith;
      count = ground arith;
    }

log_one-Fresh :
    (hist : List JobStatistics) (r : JobstatsRingbuf) (s : JobStatistics) (f : IsFresh true hist r)
    (unused : List JobStatistics)
    → f.unused ≡ unused
    → length hist + 1 < long_mod
    → Keeps (hist ++ (s ∷ [])) (log_one r s)
log_one-Fresh hist r s f (x ∷ back) e room = inl (log_one-IsFresh true hist r s x back f e)
log_one-Fresh hist r s f [] e room =
    let len : length f.unused ≡ 0 = ap length e in
    let same : r.ringbuf ≡ hist = f.slots ∙ ap (λ u. hist ++ u) e ∙ append-nil hist in
    inr (
      refuse hist r s [] (sym (append-nil r.ringbuf ∙ same)) (omega (arith, f.next, f.size))
        (omega (arith, f.size, ap length same)) f.small f.flag f.count room)

-- Logging keeps the invariant.
pub log_one-Keeps :
    (hist : List JobStatistics) (r : JobstatsRingbuf) (s : JobStatistics)
    → Keeps hist r
    → length hist + 1 < long_mod
    → Keeps (hist ++ (s ∷ [])) (log_one r s)
log_one-Keeps hist r s (inl f) room = log_one-Fresh hist r s f f.unused refl room
log_one-Keeps hist r s (inr d) room =
    inr (refuse hist r s d.dropped d.history d.next d.size d.small d.flag d.count room)

pub log_all-Keeps :
    (ss hist : List JobStatistics) (r : JobstatsRingbuf)
    → Keeps hist r
    → length hist + length ss < long_mod
    → Keeps (hist ++ ss) (log_all r ss)
unfolding log_all
log_all-Keeps [] hist r h room = rw append-nil h
log_all-Keeps (s ∷ ss) hist r h room = rw (append_assoc hist (s ∷ []) ss) at (
    log_all-Keeps ss (hist ++ (s ∷ [])) (log_one r s) (log_one-Keeps hist r s h (omega arith))
      (omega (arith, length-append hist (s ∷ []))))

-- What a buffer that must not overrun is saved as and reports, after the history `hist`.
pub record ReportsFirst (hist : List JobStatistics) (r : JobstatsRingbuf) (w : List JobStatistics)
    (room : ℕ) : Type 0 where
  pub saved :
      jobstats_ringbuf_save r (stream w room)
      ≡ ok (pos 0, stream (w ++ take r.slot_count hist) (room - min (length hist) r.slot_count))
  pub written : r.write_count ≡ length hist
  pub lost : jobstats_ringbuf_lost_count r ≡ length hist - r.slot_count
  pub oldest : jobstats_ringbuf_oldest_pos r ≡ (if length hist == 0 then 0 else 1)

save-full :
    (r : JobstatsRingbuf) (slots w : List JobStatistics) (room : ℕ)
    → r.ringbuf ≡ slots
    → 0 < r.slot_count
    → r.slot_count ≡ length r.ringbuf
    → r.next ≡ r.slot_count
    → r.slot_count < long_mod
    → r.overrun_disabled ≡ true
    → 0 < r.write_count
    → r.slot_count ≤ room
    → jobstats_ringbuf_save r (stream w room)
      ≡ ok (pos 0, stream (w ++ slots) (room - r.slot_count))
unfolding jobstats_ringbuf_save
save-full r [] w room e some_slot size full small flag some_write le =
    let len : length r.ringbuf ≡ 0 = ap length e in absurd (omega arith)
save-full r (x ∷ xs) w room e some_slot size full small flag some_write le =
    let len : length r.ringbuf ≡ suc (length xs) = ap length e in
    ground (
      arith,
      append-nil (x ∷ xs),
      rounds_to_end r.slot_count r.slot_count small xs x r.slot_count [] [] w 0 room
          (zero-mod r.slot_count) (omega arith) (omega arith) (omega arith) (omega arith),
    )

pub Keeps-ReportsFirst :
    (hist : List JobStatistics) (r : JobstatsRingbuf) (w : List JobStatistics) (room : ℕ)
    → Keeps hist r
    → 0 < r.slot_count
    → min (length hist) r.slot_count ≤ room
    → length hist < long_mod
    → ReportsFirst hist r w room
unfolding jobstats_ringbuf_lost_count jobstats_ringbuf_oldest_pos jobstats_ringbuf_overrun sub_long
Keeps-ReportsFirst hist r w room (inl f) some_slot le small = record {
  saved =
      save-IsFresh true hist r w room f (omega (arith, f.size))
      ∙ (λ i. ok (pos 0, stream (w ++ all i) (left i)));
  written = f.count;
  lost = ground arith;
  oldest = ground arith;
}
  where
    all : hist ≡ take r.slot_count hist
    all = sym (take-length r.slot_count hist (omega (arith, f.size)))

    left : room - length hist ≡ room - min (length hist) r.slot_count
    left = omega (arith, f.size)
Keeps-ReportsFirst hist r w room (inr d) some_slot le small = record {
  saved =
      save-full r r.ringbuf w room refl some_slot d.size d.next d.small d.flag
        (omega (arith, d.count, size, d.some_dropped)) (omega (arith, size, d.size))
      ∙ (λ i. ok (pos 0, stream (w ++ first i) (left i)));
  written = d.count;
  lost = ground (arith, size);
  oldest = ground (arith, size);
}
  where
    size : length hist ≡ length r.ringbuf + length d.dropped
    size = ap length d.history ∙ length-append r.ringbuf d.dropped

    first : r.ringbuf ≡ take r.slot_count hist
    first = sym (
        ap (λ l. take r.slot_count l) d.history
        ∙ take-append r.ringbuf d.dropped r.slot_count d.size)

    left : room - r.slot_count ≡ room - min (length hist) r.slot_count
    left = omega (arith, size, d.size)
