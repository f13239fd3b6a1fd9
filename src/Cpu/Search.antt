-- ===== src/Cpu/Search.antt =====
-- utility_cpu.c: what the search of a loop count finds.
use realtime_tests.Prelude.{
  ℕ, zero, suc, ◌-◌, ◌<◌, ◌≤◌, ◌≡◌, Bool, true, false, ◌&&◌, ◌||◌, none, some, ◌==◌, add_long,
  arith,
}
use realtime_tests.Prelude.Int.{ℤ, pos}
use realtime_tests.Time.{Timespec}
use realtime_tests.Sched.Fifo.{is_ok}
use realtime_tests.Cpu.Busyloop.{
  Double, CpuBusyloop, Searched, measured, is_close, busyloop_search, busyloop_search_thread,
  create_cpu_busyloop,
}

module _ (d : Double) {W : Type 0} (shifted : ℕ) (measure : ℕ → W → d.D × W) where
  open d use {D, nought, lt, le, minus, negate, to_sec, loops_in}

  -- The loop count left is the one measured last, and that measurement was close enough unless
  -- all the passes were used.
  abbrev pub is_found : D → D → ℕ → Searched d shifted measure → Bool
  is_found duration search_tolerance passes s = elim (s.last) [
    | none ↦ false
    | some (n, actual) ↦
        n == s.loop_count
        && (s.made == passes || is_close d shifted measure duration search_tolerance actual)
  ]

  measured-is_found :
      (duration search_tolerance : D) (n left : ℕ) (actual : D) (s : Searched d shifted measure)
      → is_found duration search_tolerance left s ≡ true
      → is_found duration search_tolerance (suc left) (measured d shifted measure n actual s) ≡ true
  measured-is_found duration search_tolerance n left actual s h = ground arith

  pub busyloop_search_lem :
      (duration search_tolerance : D) (passes curr_freq loop_count : ℕ) (w : W)
      → 0 < passes
      → is_ok
          (busyloop_search d shifted measure duration search_tolerance passes curr_freq loop_count
            w).rc
        ≡ true
      → is_found duration search_tolerance passes (
          busyloop_search d shifted measure duration search_tolerance passes curr_freq loop_count w)
        ≡ true
  unfolding busyloop_search
  busyloop_search_lem duration search_tolerance zero curr_freq loop_count w some_pass h =
      absurd (omega arith)
  busyloop_search_lem duration search_tolerance (suc left) curr_freq loop_count w some_pass h =
      let (actual, w') = measure loop_count w in
      let delta = minus actual duration in
      let n = add_long loop_count (loops_in curr_freq (negate delta)) in
      let m = loop_count - loops_in curr_freq delta in
      ground (
        arith,
        busyloop_search_lem duration search_tolerance left curr_freq n w',
        busyloop_search_lem duration search_tolerance left curr_freq m w',
        measured-is_found duration search_tolerance loop_count left actual
            (busyloop_search d shifted measure duration search_tolerance left curr_freq n w'),
        measured-is_found duration search_tolerance loop_count left actual
            (busyloop_search d shifted measure duration search_tolerance left curr_freq m w'),
      )

  pub made_lem :
      (duration search_tolerance : D) (passes curr_freq loop_count : ℕ) (w : W)
      → (busyloop_search d shifted measure duration search_tolerance passes curr_freq loop_count
          w).made
        ≤ passes
  unfolding busyloop_search
  made_lem duration search_tolerance zero curr_freq loop_count w = omega arith
  made_lem duration search_tolerance (suc left) curr_freq loop_count w =
      let (actual, w') = measure loop_count w in
      let delta = minus actual duration in
      let n = add_long loop_count (loops_in curr_freq (negate delta)) in
      let m = loop_count - loops_in curr_freq delta in
      ground (
        arith,
        made_lem duration search_tolerance left curr_freq n w',
        made_lem duration search_tolerance left curr_freq m w',
      )

  module _ (lock enter_max : W → ℤ × W) where
    -- The search that the thread makes, once it is locked to its processor and has its priority.
    abbrev pub search_of : ℕ → Timespec → Timespec → ℕ → W → Searched d shifted measure
    search_of curr_freq duration search_tolerance passes w =
        busyloop_search d shifted measure (to_sec duration) (to_sec search_tolerance) passes
          curr_freq (loops_in curr_freq (to_sec duration)) (enter_max (lock w).1).1

    -- If `create_cpu_busyloop` succeeds with at least one pass, the thread was locked and had its
    -- priority, the search made no more measurements than there are passes, and the object
    -- holds the duration, the frequency, and the loop count that was measured last, whose
    -- time was within the tolerance unless all the passes were used.
    pub create_cpu_busyloop_lem :
        (creates joins has_memory : Bool) (which_cpu curr_freq : ℕ)
        (duration search_tolerance : Timespec) (passes : ℕ) (w : W) (obj : CpuBusyloop)
        → 0 < passes
        → create_cpu_busyloop d shifted measure lock enter_max creates joins has_memory which_cpu
            curr_freq duration search_tolerance passes w
          ≡ (pos 0, some obj)
        → (is_ok (lock w).0 ≡ true)
          × (is_ok (enter_max (lock w).1).0 ≡ true)
          × ((search_of curr_freq duration search_tolerance passes w).made ≤ passes)
          × (obj.duration ≡ duration)
          × (obj.frequency ≡ curr_freq)
          × (obj.loop_count ≡ (search_of curr_freq duration search_tolerance passes w).loop_count)
          × (is_found
                (to_sec duration)
                (to_sec search_tolerance)
                passes
                (search_of curr_freq duration search_tolerance passes w)
              ≡ true)
    unfolding create_cpu_busyloop busyloop_search_thread
    create_cpu_busyloop_lem creates joins has_memory which_cpu curr_freq duration search_tolerance
          passes w obj some_pass e =
        let found =
          busyloop_search_lem (to_sec duration) (to_sec search_tolerance) passes curr_freq
            (loops_in curr_freq (to_sec duration)) (enter_max (lock w).1).1 some_pass in
        (
          ground arith,
          ground arith,
          made_lem (to_sec duration) (to_sec search_tolerance) passes curr_freq
              (loops_in curr_freq (to_sec duration)) (enter_max (lock w).1).1,
          ground arith,
          ground arith,
          ground arith,
          ground (arith, found),
        )
