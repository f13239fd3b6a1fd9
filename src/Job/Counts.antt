-- ===== src/Job/Counts.antt =====
-- job.c: what is saved from a ring buffer that logged a run of jobs, and the counters beside it.
use realtime_tests.Prelude.{
  ℕ, zero, suc, ◌+◌, ◌-◌, ◌<◌, ◌≤◌, ◌≡◌, inl, inr, refl, sym, ap, ◌∙◌, Bool, false, List, [], ◌∷◌,
  ◌++◌, append_assoc, append-nil, ◌==◌, if◌then◌else◌, length, length-append, drop, drop-append,
  min, add_long, sub_long, long_mod, arith,
}
use realtime_tests.Prelude.Int.{pos}
use native.Mathlib.Nat.{mod-eq_of_lt, mod_self}
use realtime_tests.Job.{
  JobStatistics, JobstatsRingbuf, jobstats_ringbuf_overrun, jobstats_ringbuf_oldest_pos,
  jobstats_ringbuf_lost_count,
}
use realtime_tests.Job.Saving.{ok, save_loop, jobstats_ringbuf_save}
use realtime_tests.Job.Saved.{stream, rounds_to_end, rounds_to_last}
use realtime_tests.Job.Logged.{IsFresh}
use realtime_tests.Job.Enabled.{Holds, HasWrapped}

-- A fresh buffer is saved whole.
pub save-IsFresh :
    (d : Bool) (hist : List JobStatistics) (r : JobstatsRingbuf) (w : List JobStatistics) (room : ℕ)
    → IsFresh d hist r
    → length hist ≤ room
    → jobstats_ringbuf_save r (stream w room) ≡ ok (pos 0, stream (w ++ hist) (room - length hist))
unfolding jobstats_ringbuf_save
save-IsFresh d [] r w room f le = ground (arith, append-nil w)
save-IsFresh d (x ∷ xs) r w room f le = ground (
  arith,
  rounds_to_end r.slot_count (suc (length xs)) f.small xs x r.slot_count [] f.unused w 0 room
      (omega (arith, f.size, mod-eq_of_lt {n = 0} {m = r.slot_count})) (omega arith)
      (omega (arith, f.size)) (omega (arith, f.size)) le,
)

-- One that has gone round is saved from its oldest entry on.
save-parts :
    (n k : ℕ) (x : JobStatistics) (xs older w : List JobStatistics) (room : ℕ)
    → k ≡ suc (length xs)
    → n ≡ k + length older
    → n < long_mod
    → n ≤ room
    → save_loop n ((x ∷ xs) ++ older) n k k (stream w room)
      ≡ ok (pos 0, stream (w ++ (older ++ (x ∷ xs))) (room - n))
save-parts n k x xs [] w room ek en small le =
    rounds_to_end n k small xs x n [] [] w k room (let e : k ≡ n = omega arith in rw e (mod_self n))
      (omega arith) (omega arith) (omega arith) (omega arith)
    ∙ ap (λ m. ok (pos 0, stream (w ++ (x ∷ xs)) m)) (omega arith)
save-parts n k x xs (o ∷ os) w room ek en small le =
    ap (λ m. save_loop m ((x ∷ xs) ++ (o ∷ os)) n k k (stream w room))
      (let e : n ≡ suc (length os) + k = omega arith in e)
    ∙ rounds_to_last n k small os o k (x ∷ xs) w k room
        (mod-eq_of_lt {n = k} {m = n} (omega arith) ∙ omega arith) (omega arith) (omega arith)
        (omega arith)
    ∙ rounds_to_end n k small xs x k [] (o ∷ os) (w ++ (o ∷ os)) n (room - suc (length os))
        (mod_self n) (omega arith) (omega arith) (omega arith) (omega arith)
    ∙ (λ i. ok (pos 0, stream (append_assoc w (o ∷ os) (x ∷ xs) i) (left i)))
  where
    left : room - suc (length os) - suc (length xs) ≡ room - n
    left = omega arith

save-Wrapped :
    (hist : List JobStatistics) (r : JobstatsRingbuf) (w : List JobStatistics) (room : ℕ)
    (h : HasWrapped hist r) (newer : List JobStatistics)
    → h.newer ≡ newer
    → r.slot_count ≤ room
    → 0 < length hist
    → jobstats_ringbuf_save r (stream w room)
      ≡ ok (pos 0, stream (w ++ (h.older ++ newer)) (room - r.slot_count))
unfolding jobstats_ringbuf_save
save-Wrapped hist r w room h [] e le some_hist =
    let len : length h.newer ≡ 0 = ap length e in absurd (omega (arith, h.some_newer))
save-Wrapped hist r w room h (x ∷ xs) e le some_hist =
    let len : length h.newer ≡ suc (length xs) = ap length e in
    let slots : r.ringbuf ≡ (x ∷ xs) ++ h.older = h.slots ∙ ap (λ n. n ++ h.older) e in
    ground (
      arith,
      save-parts r.slot_count r.next x xs h.older w room (omega (arith, h.next))
          (omega (arith, h.size, h.next)) h.small le,
    )

-- What a buffer that may overrun is saved as and reports, after the history `hist`.
pub record Reports (hist : List JobStatistics) (r : JobstatsRingbuf) (w : List JobStatistics)
    (room : ℕ) : Type 0 where
  pub saved :
      jobstats_ringbuf_save r (stream w room)
      ≡ ok (
        pos 0,
        stream
            (w ++ drop (length hist - r.slot_count) hist)
            (room - min (length hist) r.slot_count),
      )
  pub written : r.write_count ≡ length hist
  pub lost : jobstats_ringbuf_lost_count r ≡ length hist - r.slot_count
  pub oldest :
      jobstats_ringbuf_oldest_pos r
      ≡ (if length hist == 0 then 0 else length hist - r.slot_count + 1)

drop_none : (xs : List JobStatistics) (n : ℕ) → n ≡ 0 → drop n xs ≡ xs
drop_none xs zero e = refl
drop_none xs (suc n) e = absurd (omega arith)

IsFresh-Reports :
    (hist : List JobStatistics) (r : JobstatsRingbuf) (w : List JobStatistics) (room : ℕ)
    → IsFresh false hist r
    → length hist ≤ room
    → Reports hist r w room
unfolding jobstats_ringbuf_lost_count jobstats_ringbuf_oldest_pos jobstats_ringbuf_overrun
IsFresh-Reports hist r w room f le = record {
  saved = save-IsFresh false hist r w room f le ∙ (λ i. ok (pos 0, stream (w ++ all i) (left i)));
  written = f.count;
  lost = ground arith;
  oldest = ground arith;
}
  where
    all : hist ≡ drop (length hist - r.slot_count) hist
    all = sym (drop_none hist (length hist - r.slot_count) (omega (arith, f.size)))

    left : room - length hist ≡ room - min (length hist) r.slot_count
    left = omega (arith, f.size)

HasWrapped-Reports :
    (hist : List JobStatistics) (r : JobstatsRingbuf) (w : List JobStatistics) (room : ℕ)
    → HasWrapped hist r
    → r.slot_count ≤ room
    → length hist < long_mod
    → Reports hist r w room
unfolding jobstats_ringbuf_lost_count jobstats_ringbuf_oldest_pos jobstats_ringbuf_overrun add_long
    sub_long
HasWrapped-Reports hist r w room h le small = record {
  saved =
      save-Wrapped hist r w room h h.newer refl le (omega (arith, size, h.some_lost))
      ∙ (λ i. ok (pos 0, stream (w ++ last i) (left i)));
  written = h.count;
  lost = ground (arith, size);
  oldest = ground (arith, size);
}
  where
    size : length hist ≡ length h.lost + (length h.older + length h.newer)
    size =
        ap length h.history
        ∙ length-append h.lost (h.older ++ h.newer)
        ∙ ap (λ n. length h.lost + n) (length-append h.older h.newer)

    last : h.older ++ h.newer ≡ drop (length hist - r.slot_count) hist
    last = sym (
        ap (λ l. drop (length hist - r.slot_count) l) h.history
        ∙ drop-append h.lost (h.older ++ h.newer) (length hist - r.slot_count)
            (omega (arith, size, h.size)))

    left : room - r.slot_count ≡ room - min (length hist) r.slot_count
    left = omega (arith, size, h.size)

pub Holds-Reports :
    (hist : List JobStatistics) (r : JobstatsRingbuf) (w : List JobStatistics) (room : ℕ)
    → Holds hist r
    → min (length hist) r.slot_count ≤ room
    → length hist < long_mod
    → Reports hist r w room
Holds-Reports hist r w room (inl f) le small =
    IsFresh-Reports hist r w room f (omega (arith, f.size))
Holds-Reports hist r w room (inr h) le small =
    HasWrapped-Reports hist r w room h (omega (arith, size, h.size)) small
  where
    size : length hist ≡ length h.lost + (length h.older + length h.newer)
    size =
        ap length h.history
        ∙ length-append h.lost (h.older ++ h.newer)
        ∙ ap (λ n. length h.lost + n) (length-append h.older h.newer)
