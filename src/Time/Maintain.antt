-- ===== src/Time/Maintain.antt =====
-- utility_time.h, parts II and III: initialisation, collection, and the dynamic allocation.
use realtime_tests.Prelude.{true, false, not, ◌==◌, if◌then◌else◌}
use realtime_tests.Time.{zeroed, timespec}
use realtime_tests.Time.Store.{Ptr, null, M, pure, ◌>>=◌, ◌>>◌, load, store, malloc, free}

unfoldable pub utility_time_init : Ptr → M (Unit {0})
unfolding store
utility_time_init p = store p zeroed

unfoldable pub utility_time_init_dyn : Ptr → M (Unit {0})
unfolding utility_time_init load store
utility_time_init_dyn p = do
  utility_time_init p
  a ← load p
  store p (record a { dyn_alloc = true })

unfoldable pub utility_time_gc : Ptr → M (Unit {0})
unfolding load free
utility_time_gc p = do a ← load p; if a.dyn_alloc then free p else pure tt

unfoldable pub utility_time_gc_auto : Ptr → M (Unit {0})
unfolding load utility_time_gc
utility_time_gc_auto p = do a ← load p; if not a.manual_gc then utility_time_gc p else pure tt

unfoldable pub utility_time_set_gc_manual : Ptr → M (Unit {0})
unfolding load store
utility_time_set_gc_manual p = do
  a ← load p
  if a.dyn_alloc then store p (record a { manual_gc = true }) else pure tt

unfoldable pub utility_time_set_gc_auto : Ptr → M (Unit {0})
unfolding load store
utility_time_set_gc_auto p = do
  a ← load p
  if a.dyn_alloc then store p (record a { manual_gc = false }) else pure tt

unfoldable pub utility_time_make_dyn : M Ptr
unfolding malloc utility_time_init_dyn
utility_time_make_dyn = do
  p ← malloc
  if p == null then pure p else do utility_time_init_dyn p; pure p

unfoldable pub utility_time_zero_t : Ptr → M (Unit {0})
unfolding load store
utility_time_zero_t p = do a ← load p; store p (record a { t = timespec 0 0 })

-- What every `…_dyn` function does: make an object, and fill it if there is one.
unfoldable pub fill_dyn : (Ptr → M (Unit {0})) → M Ptr
unfolding utility_time_make_dyn
fill_dyn fill = do p ← utility_time_make_dyn; if p == null then pure p else do fill p; pure p
