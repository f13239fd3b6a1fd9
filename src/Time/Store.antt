-- ===== src/Time/Store.antt =====
-- The storage of `utility_time` objects: addresses, `malloc` and `free`, and member access.
-- A run that touches an address where no object lives is a fault, `none`.
use realtime_tests.Prelude.{ℕ, List, [], ◌∷◌, Option, none, some, ◌==◌, if◌then◌else◌}
use realtime_tests.Time.{UtilityTime, timespec}

abbrev pub Ptr : Type 0
Ptr = ℕ

abbrev pub null : Ptr
null = 0

-- `supply` holds what the calls of `malloc` return, with what is found in the storage.
-- A `null` there, and the end of the list, is a failure.
pub record Heap : Type 0 where
  pub cell : Ptr → Option UtilityTime
  pub supply : List (Ptr × UtilityTime)

-- A run from a heap: its result and the heap that it leaves, or a fault.
abbrev pub M : Type 0 → Type 0
M Result = Heap → Option (Result × Heap)

infixl 5 ◌>>=◌
abbrev pub ◌>>=◌ : {First Last : Type 0} → M First → (First → M Last) → M Last
◌>>=◌ run next heap = elim (run heap) [ none ↦ none | some (result, heap') ↦ next result heap' ]

infixl 5 ◌>>◌
abbrev pub ◌>>◌ : {Last : Type 0} → M (Unit {0}) → M Last → M Last
◌>>◌ run next heap = (run >>= λ done. next) heap

abbrev pub pure : {Result : Type 0} → Result → M Result
pure result heap = some (result, heap)

abbrev pub update : (Ptr → Option UtilityTime) → Ptr → Option UtilityTime → Ptr → Option UtilityTime
update f p o q = if q == p then o else f q

abbrev pub put : Heap → Ptr → Option UtilityTime → Heap
put h p o = record h { cell = update h.cell p o }

abbrev load_at : Option UtilityTime → M UtilityTime
load_at none h = none
load_at (some a) h = some (a, h)

unfoldable pub load : Ptr → M UtilityTime
load p h = load_at (h.cell p) h

unfoldable pub store : Ptr → UtilityTime → M (Unit {0})
unfolding load
store p a = do _ ← load p; λ h. some (tt, put h p (some a))

unfoldable pub set_sec : Ptr → ℕ → M (Unit {0})
unfolding load store
set_sec p v = do a ← load p; store p (record a { t = timespec v a.t.tv_nsec })

unfoldable pub set_nsec : Ptr → ℕ → M (Unit {0})
unfolding load store
set_nsec p v = do a ← load p; store p (record a { t = timespec a.t.tv_sec v })

abbrev malloc_from : List (Ptr × UtilityTime) → M Ptr
malloc_from [] h = some (null, h)
malloc_from ((p, found) ∷ rest) h =
    if p == null
    then some (null, record h { supply = rest })
    else some (p, record { cell = update h.cell p (some found); supply = rest })

unfoldable pub malloc : M Ptr
malloc h = malloc_from h.supply h

-- A `free` of what is not live is a fault.
unfoldable pub free : Ptr → M (Unit {0})
unfolding load
free p = do _ ← load p; λ h. some (tt, put h p none)
