-- ===== src/Job/Saving.antt =====
-- job.c: `jobstats_ringbuf_save`, which writes the ring buffer out from its oldest entry on.
use realtime_tests.Prelude.{
  ℕ, zero, suc, ◌-◌, ◌%◌, not, ◌&&◌, ◌||◌, none, some, List, [], ◌∷◌, ◌++◌, ◌==◌, if◌then◌else◌,
  get_elem?, add_long,
}
use realtime_tests.Prelude.Int.{ℤ, pos, negsuc}
use realtime_tests.Job.{JobStatistics, JobstatsRingbuf, OutStream}

-- How a run ends: with a result, by a read outside the array, or out of fuel.
pub data Outcome (A : Type 0) : Type 0 where
  ok : A → Outcome A
  fault : Outcome A
  out_of_fuel : Outcome A

abbrev pub Save : Type 0
Save = Outcome (ℤ × OutStream JobStatistics)

-- The do-while loop. A round that cannot write returns -1.
unfoldable pub save_loop : ℕ → List JobStatistics → ℕ → ℕ → ℕ → OutStream JobStatistics → Save
save_loop zero slots slot_count i end out = out_of_fuel
save_loop (suc fuel) slots slot_count i end out =
    let i' = i % slot_count in
    elim (get_elem? slots i') [
      | none ↦ fault
      | some x ↦
          let next = add_long i' 1 in
          let out' : OutStream JobStatistics = record {
            written = out.written ++ (x ∷ []);
            room = out.room - 1;
          } in
          let more = save_loop fuel slots slot_count next end out' in
          if out.room == 0
          then ok (negsuc 0, out)
          else if next == end
          then ok (pos 0, out')
          else more
    ]

-- A round writes one slot and stops at `end`, so `slot_count` rounds are enough.
unfoldable pub jobstats_ringbuf_save : JobstatsRingbuf → OutStream JobStatistics → Save
unfolding save_loop
jobstats_ringbuf_save r out =
    let i = (if r.overrun_disabled || not r.overrun then 0 else r.next) in
    let end = (if not r.overrun_disabled && r.overrun && r.slot_count == 1 then 1 else r.next) in
    if r.write_count == 0
    then ok (pos 0, out)
    else save_loop r.slot_count r.ringbuf r.slot_count i end out
