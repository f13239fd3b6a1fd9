-- ===== src/Job/Enabled.antt =====
-- job.c: a ring buffer that may overrun. Whatever is logged, it holds the last statistics.
use realtime_tests.Prelude.{
  suc, ◌+◌, ◌<◌, ◌≤◌, ◌≡◌, ◌⊎◌, inl, inr, refl, sym, ap, ◌∙◌, true, false, List, [], ◌∷◌, ◌++◌,
  append_assoc, append-nil, length, length-append, add_long, long_mod, arith,
}
use realtime_tests.Job.{JobStatistics, JobstatsRingbuf, claim_slot, write_slot}
use realtime_tests.Job.Logged.{log_one, log_all, modify-append, IsFresh, log_one-IsFresh}

-- The buffer has gone round: behind the `newer` entries stand the `older` ones, and the `lost`
-- ones are gone.
pub record HasWrapped (hist : List JobStatistics) (r : JobstatsRingbuf) : Type 0 where
  pub newer : List JobStatistics
  pub older : List JobStatistics
  pub lost : List JobStatistics
  pub slots : r.ringbuf ≡ newer ++ older
  pub next : r.next ≡ length newer
  pub some_newer : 0 < length newer
  pub size : r.slot_count ≡ length newer + length older
  pub small : r.slot_count < long_mod
  pub history : hist ≡ lost ++ (older ++ newer)
  pub some_lost : 0 < length lost
  pub flag : r.overrun_disabled ≡ false
  pub loud : r.overrun ≡ true
  pub rounds_pos : 0 < r.overrun_count
  pub rounds_le : r.overrun_count ≤ length hist
  pub count : r.write_count ≡ length hist

-- A full buffer whose oldest entry is `x` starts again at its first slot.
turn :
    (hist : List JobStatistics) (r : JobstatsRingbuf) (s x : JobStatistics)
    (back lost : List JobStatistics)
    → r.ringbuf ≡ x ∷ back
    → r.next ≡ r.slot_count
    → r.slot_count ≡ suc (length back)
    → r.slot_count < long_mod
    → hist ≡ lost ++ (x ∷ back)
    → r.overrun_disabled ≡ false
    → r.overrun_count ≤ length hist
    → r.write_count ≡ length hist
    → length hist + 1 < long_mod
    → HasWrapped (hist ++ (s ∷ [])) (log_one r s)
unfolding log_one claim_slot write_slot add_long
turn hist r s x back lost slots full size small history flag rounds count room =
    let longer : length (hist ++ (s ∷ [])) ≡ length hist + 1 = length-append hist (s ∷ []) in
    record {
      newer = s ∷ [];
      older = back;
      lost = lost ++ (x ∷ []);
      slots = ground arith;
      next = ground arith;
      some_newer = omega arith;
      size = ground arith;
      small = ground arith;
      history =
          ap (λ l. l ++ (s ∷ [])) history
          ∙ append_assoc lost (x ∷ back) (s ∷ [])
          ∙ sym (append_assoc lost (x ∷ []) (back ++ (s ∷ [])));
      some_lost = omega (arith, length-append lost (x ∷ []));
      flag = ground arith;
      loud = ground arith;
      rounds_pos = ground arith;
      rounds_le = ground arith;
      count = ground arith;
    }

-- Otherwise the oldest entry gives way where it stands.
replace :
    (hist : List JobStatistics) (r : JobstatsRingbuf) (s x : JobStatistics)
    (back : List JobStatistics) (w : HasWrapped hist r)
    → w.older ≡ x ∷ back
    → length hist + 1 < long_mod
    → HasWrapped (hist ++ (s ∷ [])) (log_one r s)
unfolding log_one claim_slot write_slot add_long
replace hist r s x back w e room =
    let len : length w.older ≡ suc (length back) = ap length e in
    let longer : length (hist ++ (s ∷ [])) ≡ length hist + 1 = length-append hist (s ∷ []) in
    let longer' : length (w.newer ++ (s ∷ [])) ≡ length w.newer + 1 =
      length-append w.newer (s ∷ []) in
    record {
      newer = w.newer ++ (s ∷ []);
      older = back;
      lost = w.lost ++ (x ∷ []);
      slots =
          ground (
            arith,
            modify-append w.newer x back r.next (λ _. s),
            append_assoc w.newer (s ∷ []) back,
          );
      next = ground arith;
      some_newer = omega arith;
      size = ground arith;
      small = ground arith;
      history =
          ap (λ l. l ++ (s ∷ [])) (w.history ∙ ap (λ o. w.lost ++ (o ++ w.newer)) e)
          ∙ append_assoc w.lost (x ∷ (back ++ w.newer)) (s ∷ [])
          ∙ ap (λ l. w.lost ++ (x ∷ l)) (append_assoc back w.newer (s ∷ []))
          ∙ sym (append_assoc w.lost (x ∷ []) (back ++ (w.newer ++ (s ∷ []))));
      some_lost = omega (arith, length-append w.lost (x ∷ []));
      flag = ground arith;
      loud = ground arith;
      rounds_pos = ground arith;
      rounds_le = ground arith;
      count = ground arith;
    }

-- What a buffer that may overrun is, after the history `hist`.
abbrev pub Holds : List JobStatistics → JobstatsRingbuf → Type 0
Holds hist r = IsFresh false hist r ⊎ HasWrapped hist r

log_one-Fresh :
    (hist : List JobStatistics) (r : JobstatsRingbuf) (s : JobStatistics) (f : IsFresh false hist r)
    (unused : List JobStatistics)
    → f.unused ≡ unused
    → 0 < r.slot_count
    → length hist + 1 < long_mod
    → Holds (hist ++ (s ∷ [])) (log_one r s)
log_one-Fresh hist r s f (x ∷ back) e pos room = inl (log_one-IsFresh false hist r s x back f e)
log_one-Fresh [] r s f [] e pos room =
    let len : length f.unused ≡ 0 = ap length e in absurd (omega (arith, f.size))
log_one-Fresh (x ∷ hist) r s f [] e pos room =
    let len : length f.unused ≡ 0 = ap length e in
    inr (
      turn (x ∷ hist) r s x hist [] (f.slots ∙ ap (λ u. (x ∷ hist) ++ u) e ∙ append-nil (x ∷ hist))
        (omega (arith, f.next, f.size)) (omega (arith, f.size)) f.small refl f.flag
        (omega (arith, f.rounds)) f.count room)

log_one-Wrapped :
    (hist : List JobStatistics) (r : JobstatsRingbuf) (s : JobStatistics) (w : HasWrapped hist r)
    (newer older : List JobStatistics)
    → w.newer ≡ newer
    → w.older ≡ older
    → length hist + 1 < long_mod
    → Holds (hist ++ (s ∷ [])) (log_one r s)
log_one-Wrapped hist r s w newer (x ∷ back) en eo room = inr (replace hist r s x back w eo room)
log_one-Wrapped hist r s w [] [] en eo room =
    let len : length w.newer ≡ 0 = ap length en in absurd (omega (arith, w.some_newer))
log_one-Wrapped hist r s w (x ∷ back) [] en eo room =
    let len : length w.newer ≡ suc (length back) = ap length en in
    let len' : length w.older ≡ 0 = ap length eo in
    inr (
      turn hist r s x back w.lost (w.slots ∙ ap (λ o. w.newer ++ o) eo ∙ append-nil w.newer ∙ en)
        (omega (arith, w.next, w.size)) (omega (arith, w.size)) w.small
        (w.history ∙ ap (λ o. w.lost ++ (o ++ w.newer)) eo ∙ ap (λ n. w.lost ++ n) en) w.flag
        w.rounds_le w.count room)

-- Logging keeps the invariant.
pub log_one-Holds :
    (hist : List JobStatistics) (r : JobstatsRingbuf) (s : JobStatistics)
    → Holds hist r
    → 0 < r.slot_count
    → length hist + 1 < long_mod
    → Holds (hist ++ (s ∷ [])) (log_one r s)
log_one-Holds hist r s (inl f) pos room = log_one-Fresh hist r s f f.unused refl pos room
log_one-Holds hist r s (inr w) pos room = log_one-Wrapped hist r s w w.newer w.older refl refl room

pub slot_count-log_one :
    (r : JobstatsRingbuf) (s : JobStatistics) → (log_one r s).slot_count ≡ r.slot_count
unfolding log_one claim_slot write_slot
slot_count-log_one r s = ground arith

pub log_all-Holds :
    (ss hist : List JobStatistics) (r : JobstatsRingbuf)
    → Holds hist r
    → 0 < r.slot_count
    → length hist + length ss < long_mod
    → Holds (hist ++ ss) (log_all r ss)
unfolding log_all
log_all-Holds [] hist r h pos room = rw append-nil h
log_all-Holds (s ∷ ss) hist r h pos room = rw (append_assoc hist (s ∷ []) ss) at (
    log_all-Holds ss (hist ++ (s ∷ [])) (log_one r s) (log_one-Holds hist r s h pos (omega arith))
      (omega (arith, slot_count-log_one r s)) (omega (arith, length-append hist (s ∷ []))))
