-- ===== src/Time/Collect.antt =====
-- utility_time.h, garbage collection: which objects live after the `…_dyn` and `…_gc` functions.
use realtime_tests.Prelude.{
  ◌≡◌, ◌≢◌, none, some, Option, List, ◌∷◌, true, false, not, ◌&&◌, arith, ◌==◌, if◌then◌else◌, Bool,
  fun_ext,
}
use realtime_tests.Time.{Timespec, UtilityTime, timespec, plus, minus, zeroed}
use realtime_tests.Time.Store.{Ptr, null, Heap, M, update, put, load, store, free, malloc, ◌>>◌}
use realtime_tests.Time.Maintain.{
  utility_time_init, utility_time_init_dyn, utility_time_gc, utility_time_gc_auto,
  utility_time_make_dyn, fill_dyn,
}
use realtime_tests.Time.Overlap.{update-update, utility_time_add_lem, utility_time_sub_lem}
use realtime_tests.Time.Arith.{
  utility_time_add, utility_time_add_dyn, utility_time_add_dyn_gc, utility_time_sub,
  utility_time_sub_dyn, utility_time_sub_dyn_gc,
}
use realtime_tests.Time.Compare.{compare_gc_t2, compare_gc}

-- The objects that an automatic collection frees.
abbrev pub is_garbage : UtilityTime → Bool
is_garbage a = not a.manual_gc && a.dyn_alloc

-- What is left of an object that is collected automatically.
abbrev pub collect : UtilityTime → Option UtilityTime
collect a = if is_garbage a then none else some a

put_same : (h : Heap) (p : Ptr) {a : UtilityTime} → h.cell p ≡ some a → put h p (some a) ≡ h
put_same h p {a} e = λ i. record h {
  cell = fun_ext {f = update h.cell p (some a)} {g = h.cell} (λ q. ground arith) i;
}

-- `utility_time_gc_auto` leaves of a live object what `collect` says.
pub utility_time_gc_auto_lem :
    (h : Heap) (p : Ptr) {a : UtilityTime}
    → h.cell p ≡ some a
    → utility_time_gc_auto p h ≡ some (tt, put h p (collect a))
unfolding utility_time_gc_auto utility_time_gc load free
utility_time_gc_auto_lem h p {a} e = ground (arith, put_same h p e)

-- It faults on what is not live.
pub utility_time_gc_auto_fault :
    (h : Heap) (p : Ptr) → h.cell p ≡ none → utility_time_gc_auto p h ≡ none
unfolding utility_time_gc_auto utility_time_gc load free
utility_time_gc_auto_fault h p e = ground arith

-- A dynamic object that holds `v` and is collected automatically.
abbrev pub dynamic : Timespec → UtilityTime
dynamic v = record { t = v; dyn_alloc = true; manual_gc = false }

-- The storage after `malloc` has given `q`.
abbrev pub allocated : Heap → Ptr → UtilityTime → List (Ptr × UtilityTime) → Heap
allocated h q o rest = record { cell = update h.cell q (some o); supply = rest }

pub make_dyn_lem :
    (h : Heap) (q : Ptr) (found : UtilityTime) (rest : List (Ptr × UtilityTime))
    → h.supply ≡ (q, found) ∷ rest
    → q ≢ null
    → utility_time_make_dyn h ≡ some (q, allocated h q (dynamic (timespec 0 0)) rest)
unfolding utility_time_make_dyn malloc utility_time_init_dyn utility_time_init load store
make_dyn_lem h q found rest e ne = ground (
  arith,
  update-update h.cell q (some found) (some zeroed),
  update-update h.cell q (some found) (some (dynamic (timespec 0 0))),
  update-update h.cell q (some zeroed) (some (dynamic (timespec 0 0))),
)

-- Two automatic collections in a row: the second faults if the first has freed its object.
collect_both_lem :
    (h : Heap) (p r : Ptr) {a b : UtilityTime}
    → h.cell p ≡ some a
    → h.cell r ≡ some b
    → (utility_time_gc_auto p >> utility_time_gc_auto r) h ≡ (
        if p == r && is_garbage a then none else some (tt, put (put h p (collect a)) r (collect b)))
collect_both_lem h p r {a} {b} ea eb = ground (
  arith,
  utility_time_gc_auto_lem h p ea,
  utility_time_gc_auto_lem (put h p (collect a)) r {a = b},
  utility_time_gc_auto_fault (put h p (collect a)) r,
)

-- Every comparison that collects its operands answers as the one that does not, and frees those
-- operands that are garbage; it faults exactly where one garbage object is both operands.
pub compare_gc_lem :
    (test : UtilityTime → UtilityTime → Bool) (h : Heap) (p r : Ptr) {a b : UtilityTime}
    → h.cell p ≡ some a
    → h.cell r ≡ some b
    → compare_gc test p r h ≡ (
        if p == r && is_garbage a
        then none
        else some (test a b, put (put h r (collect b)) p (collect a)))
unfolding compare_gc compare_gc_t2 load
compare_gc_lem test h p r {a} {b} ea eb = ground (
  arith,
  utility_time_gc_auto_lem h r eb,
  utility_time_gc_auto_lem (put h r (collect b)) p {a = a},
  utility_time_gc_auto_fault (put h r (collect b)) p,
)

module _ (h : Heap) (q : Ptr) (found : UtilityTime) (rest : List (Ptr × UtilityTime))
    (es : h.supply ≡ (q, found) ∷ rest) where
  -- A `…_dyn` function returns the new object with what its filling leaves there.
  fill_dyn_lem :
      (fill : Ptr → M (Unit {0})) (v : Timespec)
      → q ≢ null
      → fill q (allocated h q (dynamic (timespec 0 0)) rest)
        ≡ some (tt, put (allocated h q (dynamic (timespec 0 0)) rest) q (some (dynamic v)))
      → fill_dyn fill h ≡ some (q, allocated h q (dynamic v) rest)
  unfolding fill_dyn
  fill_dyn_lem fill v ne e = ground (
    arith,
    make_dyn_lem h q found rest es ne,
    update-update h.cell q (some (dynamic (timespec 0 0))) (some (dynamic v)),
  )

  -- Without memory it returns a null pointer and fills nothing.
  fill_dyn-null :
      (fill : Ptr → M (Unit {0}))
      → q ≡ null
      → fill_dyn fill h ≡ some (null, record h { supply = rest })
  unfolding fill_dyn utility_time_make_dyn malloc
  fill_dyn-null fill e = ground arith

  module _ (p r : Ptr) {a b : UtilityTime} (ea : h.cell p ≡ some a) (eb : h.cell r ≡ some b)
      (fresh : h.cell q ≡ none) where
    -- `utility_time_add_dyn_gc`, given memory that is not in use, returns a new object with the sum
    -- that an automatic collection frees, frees those operands that are garbage, and leaves all
    -- else; it faults exactly where one garbage object is both operands.
    pub utility_time_add_dyn_gc_lem :
        q ≢ null
        → utility_time_add_dyn_gc p r h ≡ (
            if p == r && is_garbage a
            then none
            else some (
              q,
              put (put (allocated h q (dynamic (plus a.t b.t)) rest) p (collect a)) r (collect b),
            ))
    unfolding utility_time_add_dyn_gc utility_time_add_dyn
    utility_time_add_dyn_gc_lem ne = ground (
      arith,
      fill_dyn_lem (utility_time_add p r) (plus a.t b.t) ne,
      utility_time_add_lem (allocated h q (dynamic (timespec 0 0)) rest) p r q {a = a} {b = b}
          {c = dynamic (timespec 0 0)},
      collect_both_lem (allocated h q (dynamic (plus a.t b.t)) rest) p r {a = a} {b = b},
    )

    -- `utility_time_sub_dyn_gc`, given memory that is not in use, returns a new object with the
    -- truncated difference that an automatic collection frees, frees those operands that are
    -- garbage, and leaves all else; it faults exactly where one garbage object is both operands.
    pub utility_time_sub_dyn_gc_lem :
        q ≢ null
        → utility_time_sub_dyn_gc p r h ≡ (
            if p == r && is_garbage a
            then none
            else some (
              q,
              put (put (allocated h q (dynamic (minus a b)) rest) p (collect a)) r (collect b),
            ))
    unfolding utility_time_sub_dyn_gc utility_time_sub_dyn
    utility_time_sub_dyn_gc_lem ne = ground (
      arith,
      fill_dyn_lem (utility_time_sub p r) (minus a b) ne,
      utility_time_sub_lem (allocated h q (dynamic (timespec 0 0)) rest) p r q {a = a} {b = b}
          {c = dynamic (timespec 0 0)},
      collect_both_lem (allocated h q (dynamic (minus a b)) rest) p r {a = a} {b = b},
    )

    -- Where `malloc` fails, `utility_time_add_dyn_gc` and `utility_time_sub_dyn_gc` return a null
    -- pointer and still free the operands that are garbage.
    pub dyn_gc_no_memory :
        q ≡ null
        → let out : Option (Ptr × Heap) =
            (if p == r && is_garbage a
              then none
              else some
                  (null, put (put (record h { supply = rest }) p (collect a)) r (collect b))) in
          (utility_time_add_dyn_gc p r h ≡ out) × (utility_time_sub_dyn_gc p r h ≡ out)
    unfolding utility_time_add_dyn_gc utility_time_add_dyn utility_time_sub_dyn_gc
        utility_time_sub_dyn
    dyn_gc_no_memory e = (
      ground (
        arith,
        fill_dyn-null (utility_time_add p r) e,
        collect_both_lem (record h { supply = rest }) p r {a = a} {b = b},
      ),
      ground (
        arith,
        fill_dyn-null (utility_time_sub p r) e,
        collect_both_lem (record h { supply = rest }) p r {a = a} {b = b},
      ),
    )
