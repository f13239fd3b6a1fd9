-- ===== src/Time/Compare.antt =====
-- utility_time.h, part VI: the comparisons that collect their operands.
use realtime_tests.Prelude.{Bool}
use realtime_tests.Time.{
  UtilityTime, utility_time_eq, utility_time_lt, utility_time_le, utility_time_gt, utility_time_ge,
  utility_time_ne,
}
use realtime_tests.Time.Store.{Ptr, M, pure, ◌>>=◌, ◌>>◌, load}
use realtime_tests.Time.Maintain.{utility_time_gc_auto}

-- The common body of the `…_gc_t2` functions, and of the `…_gc` functions.
unfoldable pub compare_gc_t2 : (UtilityTime → UtilityTime → Bool) → Ptr → Ptr → M Bool
unfolding load utility_time_gc_auto
compare_gc_t2 test t1 t2 = do a ← load t1; b ← load t2; utility_time_gc_auto t2; pure (test a b)

unfoldable pub compare_gc : (UtilityTime → UtilityTime → Bool) → Ptr → Ptr → M Bool
unfolding compare_gc_t2 utility_time_gc_auto
compare_gc test t1 t2 = do r ← compare_gc_t2 test t1 t2; utility_time_gc_auto t1; pure r

abbrev pub utility_time_eq_gc_t2 : Ptr → Ptr → M Bool
utility_time_eq_gc_t2 = compare_gc_t2 utility_time_eq

abbrev pub utility_time_eq_gc : Ptr → Ptr → M Bool
utility_time_eq_gc = compare_gc utility_time_eq

abbrev pub utility_time_lt_gc_t2 : Ptr → Ptr → M Bool
utility_time_lt_gc_t2 = compare_gc_t2 utility_time_lt

abbrev pub utility_time_lt_gc : Ptr → Ptr → M Bool
utility_time_lt_gc = compare_gc utility_time_lt

abbrev pub utility_time_le_gc_t2 : Ptr → Ptr → M Bool
utility_time_le_gc_t2 = compare_gc_t2 utility_time_le

abbrev pub utility_time_le_gc : Ptr → Ptr → M Bool
utility_time_le_gc = compare_gc utility_time_le

abbrev pub utility_time_gt_gc_t2 : Ptr → Ptr → M Bool
utility_time_gt_gc_t2 = compare_gc_t2 utility_time_gt

abbrev pub utility_time_gt_gc : Ptr → Ptr → M Bool
utility_time_gt_gc = compare_gc utility_time_gt

abbrev pub utility_time_ge_gc_t2 : Ptr → Ptr → M Bool
utility_time_ge_gc_t2 = compare_gc_t2 utility_time_ge

abbrev pub utility_time_ge_gc : Ptr → Ptr → M Bool
utility_time_ge_gc = compare_gc utility_time_ge

abbrev pub utility_time_ne_gc_t2 : Ptr → Ptr → M Bool
utility_time_ne_gc_t2 = compare_gc_t2 utility_time_ne

abbrev pub utility_time_ne_gc : Ptr → Ptr → M Bool
utility_time_ne_gc = compare_gc utility_time_ne
