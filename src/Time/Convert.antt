-- ===== src/Time/Convert.antt =====
-- utility_time.h, parts IV and V: conversions to and from the internal representation.
use realtime_tests.Prelude.{ℕ}
use realtime_tests.Time.{TimeUnit, Timespec, to_utility_time_fields}
use realtime_tests.Time.Store.{Ptr, M, pure, ◌>>=◌, ◌>>◌, load, set_sec, set_nsec}
use realtime_tests.Time.Maintain.{utility_time_gc_auto, fill_dyn}

-- Two member writes.
unfoldable pub set_fields : Ptr → Timespec → M (Unit {0})
unfolding set_sec set_nsec
set_fields p v = do set_sec p v.tv_sec; set_nsec p v.tv_nsec

unfoldable pub to_utility_time : ℕ → TimeUnit → Ptr → M (Unit {0})
unfolding set_fields to_utility_time_fields
to_utility_time t unit p = set_fields p (to_utility_time_fields t unit)

unfoldable pub to_utility_time_dyn : ℕ → TimeUnit → M Ptr
unfolding to_utility_time fill_dyn
to_utility_time_dyn t unit = fill_dyn (to_utility_time t unit)

unfoldable pub timespec_to_utility_time : Timespec → Ptr → M (Unit {0})
unfolding set_fields
timespec_to_utility_time t p = set_fields p t

unfoldable pub timespec_to_utility_time_dyn : Timespec → M Ptr
unfolding timespec_to_utility_time fill_dyn
timespec_to_utility_time_dyn t = fill_dyn (timespec_to_utility_time t)

unfoldable pub utility_time_to_utility_time : Ptr → Ptr → M (Unit {0})
unfolding load set_sec set_nsec
utility_time_to_utility_time src dst = do
  a ← load src
  set_sec dst a.t.tv_sec
  b ← load src
  set_nsec dst b.t.tv_nsec

unfoldable pub utility_time_to_utility_time_gc : Ptr → Ptr → M (Unit {0})
unfolding utility_time_to_utility_time utility_time_gc_auto
utility_time_to_utility_time_gc src dst = do
  utility_time_to_utility_time src dst
  utility_time_gc_auto src

unfoldable pub utility_time_to_utility_time_dyn : Ptr → M Ptr
unfolding utility_time_to_utility_time fill_dyn
utility_time_to_utility_time_dyn src = fill_dyn (utility_time_to_utility_time src)

-- The `struct timespec` that the caller points to is the result.
unfoldable pub to_timespec : Ptr → M Timespec
unfolding load
to_timespec p = do a ← load p; pure a.t

unfoldable pub to_timespec_gc : Ptr → M Timespec
unfolding to_timespec utility_time_gc_auto
to_timespec_gc p = do t ← to_timespec p; utility_time_gc_auto p; pure t
