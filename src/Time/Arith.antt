-- ===== src/Time/Arith.antt =====
-- utility_time.h, part VII: addition, increment, truncated subtraction and multiplication.
use realtime_tests.Prelude.{ℕ, zero, suc, if◌then◌else◌, add_long, sub_long, lt_long}
use realtime_tests.Time.{
  Timespec, timespec, billion, combined_ns_in_s, combined_ns_leftover, plus, utility_time_le,
}
use realtime_tests.Time.Store.{Ptr, M, pure, ◌>>=◌, ◌>>◌, load, set_sec, set_nsec}
use realtime_tests.Time.Maintain.{utility_time_gc_auto, utility_time_zero_t, fill_dyn}
use realtime_tests.Time.Convert.{set_fields}

-- The operands are read again after the first member write: `res` may be one of them.
unfoldable pub utility_time_add : Ptr → Ptr → Ptr → M (Unit {0})
unfolding load set_sec set_nsec combined_ns_in_s combined_ns_leftover
utility_time_add t1 t2 res = do
  a ← load t1
  b ← load t2
  set_sec res (add_long (add_long a.t.tv_sec b.t.tv_sec) (combined_ns_in_s a.t b.t))
  a ← load t1
  b ← load t2
  set_nsec res (combined_ns_leftover a.t b.t)

unfoldable pub utility_time_add_gc : Ptr → Ptr → Ptr → M (Unit {0})
unfolding utility_time_add utility_time_gc_auto
utility_time_add_gc t1 t2 res = do
  utility_time_add t1 t2 res
  utility_time_gc_auto t1
  utility_time_gc_auto t2

unfoldable pub utility_time_add_dyn : Ptr → Ptr → M Ptr
unfolding utility_time_add fill_dyn
utility_time_add_dyn t1 t2 = fill_dyn (utility_time_add t1 t2)

unfoldable pub utility_time_add_dyn_gc : Ptr → Ptr → M Ptr
unfolding utility_time_add_dyn utility_time_gc_auto
utility_time_add_dyn_gc t1 t2 = do
  p ← utility_time_add_dyn t1 t2
  utility_time_gc_auto t1
  utility_time_gc_auto t2
  pure p

unfoldable pub utility_time_inc : Ptr → Ptr → M (Unit {0})
unfolding utility_time_add
utility_time_inc target inc = utility_time_add target inc target

unfoldable pub utility_time_inc_gc : Ptr → Ptr → M (Unit {0})
unfolding utility_time_inc utility_time_gc_auto
utility_time_inc_gc target inc = do utility_time_inc target inc; utility_time_gc_auto inc

-- The two assignments of a subtraction that borrows a second, and of one that does not.
unfoldable pub sub_borrow : Ptr → Ptr → Ptr → M (Unit {0})
unfolding load set_sec set_nsec
sub_borrow t1 t2 res = do
  a ← load t1
  b ← load t2
  set_sec res (sub_long (sub_long a.t.tv_sec 1) b.t.tv_sec)
  a ← load t1
  b ← load t2
  set_nsec res (sub_long (add_long billion a.t.tv_nsec) b.t.tv_nsec)

unfoldable pub sub_plain : Ptr → Ptr → Ptr → M (Unit {0})
unfolding load set_sec set_nsec
sub_plain t1 t2 res = do
  a ← load t1
  b ← load t2
  set_sec res (sub_long a.t.tv_sec b.t.tv_sec)
  a ← load t1
  b ← load t2
  set_nsec res (sub_long a.t.tv_nsec b.t.tv_nsec)

unfoldable pub utility_time_sub : Ptr → Ptr → Ptr → M (Unit {0})
unfolding load utility_time_le utility_time_zero_t sub_borrow sub_plain
utility_time_sub t1 t2 res = do
  a ← load t1
  b ← load t2
  if utility_time_le a b
      then utility_time_zero_t res
      else if lt_long a.t.tv_nsec b.t.tv_nsec
      then sub_borrow t1 t2 res
      else sub_plain t1 t2 res

unfoldable pub utility_time_sub_gc : Ptr → Ptr → Ptr → M (Unit {0})
unfolding utility_time_sub utility_time_gc_auto
utility_time_sub_gc t1 t2 res = do
  utility_time_sub t1 t2 res
  utility_time_gc_auto t1
  utility_time_gc_auto t2

unfoldable pub utility_time_sub_dyn : Ptr → Ptr → M Ptr
unfolding utility_time_sub fill_dyn
utility_time_sub_dyn t1 t2 = fill_dyn (utility_time_sub t1 t2)

unfoldable pub utility_time_sub_dyn_gc : Ptr → Ptr → M Ptr
unfolding utility_time_sub_dyn utility_time_gc_auto
utility_time_sub_dyn_gc t1 t2 = do
  p ← utility_time_sub_dyn t1 t2
  utility_time_gc_auto t1
  utility_time_gc_auto t2
  pure p

-- The rounds of `utility_time_mul`. The local `t` has no other name, so it is carried as a value,
-- and `utility_time_inc (&t, t1)` adds to it.
unfoldable pub mul_loop : ℕ → Timespec → Ptr → M Timespec
unfolding load plus
mul_loop zero t t1 = pure t
mul_loop (suc n) t t1 = do a ← load t1; mul_loop n (plus t a.t) t1

unfoldable pub utility_time_mul : Ptr → ℕ → Ptr → M (Unit {0})
unfolding mul_loop set_fields
utility_time_mul t1 n res = do t ← mul_loop n (timespec 0 0) t1; set_fields res t

unfoldable pub utility_time_mul_gc : Ptr → ℕ → Ptr → M (Unit {0})
unfolding utility_time_mul utility_time_gc_auto
utility_time_mul_gc t1 n res = do utility_time_mul t1 n res; utility_time_gc_auto t1

unfoldable pub utility_time_mul_dyn : Ptr → ℕ → M Ptr
unfolding utility_time_mul fill_dyn
utility_time_mul_dyn t1 n = fill_dyn (utility_time_mul t1 n)

unfoldable pub utility_time_mul_dyn_gc : Ptr → ℕ → M Ptr
unfolding utility_time_mul_dyn utility_time_gc_auto
utility_time_mul_dyn_gc t1 n = do p ← utility_time_mul_dyn t1 n; utility_time_gc_auto t1; pure p
