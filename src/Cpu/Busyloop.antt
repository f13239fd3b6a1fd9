-- ===== src/Cpu/Busyloop.antt =====
-- utility_cpu.c: the number of rounds of a busy loop that takes a given time.
use realtime_tests.Prelude.{
  ℕ, zero, suc, ◌+◌, ◌-◌, ◌/◌, Bool, not, Option, none, some, ◌==◌, ltb, if◌then◌else◌, add_long,
  sub_long,
}
use realtime_tests.Prelude.Int.{ℤ, pos, negsuc}
use realtime_tests.Time.{Timespec}
use realtime_tests.Sched.Fifo.{is_ok}

-- All that the code does with a `double`. `loops_in` is the conversion of a frequency times a
-- duration to an `unsigned long long`.
pub record Double : Type 1 where
  pub D : Type 0
  pub nought : D
  pub lt : D → D → Bool
  pub le : D → D → Bool
  pub minus : D → D → D
  pub negate : D → D
  pub to_sec : Timespec → D
  pub loops_in : ℕ → D → ℕ

-- The object `cpu_busyloop`.
pub record CpuBusyloop : Type 0 where
  pub which_cpu : ℕ
  pub frequency : ℕ
  pub loop_count : ℕ
  pub duration : Timespec

-- `shifted` is what `1ULL << (sizeof (unsigned long) * 8)` gives, which C leaves open for a
-- shift by all the bits.
abbrev pub loop_count_too_long : ℕ → ℕ → Bool
loop_count_too_long shifted loop_count = ltb (sub_long shifted 1) loop_count

-- `measure` is `busyloop_measurement` over the state of the world.
module _ (d : Double) {W : Type 0} (shifted : ℕ) (measure : ℕ → W → d.D × W) where
  open d use {D, nought, lt, le, minus, negate, to_sec, loops_in}

  -- What the search returns and leaves, with the last measurement: of how many rounds, and its
  -- result; and with the number of measurements made.
  pub record Searched : Type 0 where
    pub rc : ℤ
    pub loop_count : ℕ
    pub world : W
    pub last : Option (ℕ × D)
    pub made : ℕ

  -- One more measurement, before what the passes behind it do.
  abbrev pub measured : ℕ → D → Searched → Searched
  measured n actual s = record s {
    last = elim (s.last) [ none ↦ some (n, actual) | some m ↦ some m ];
    made = s.made + 1;
  }

  abbrev pub stop : ℤ → ℕ → W → Searched
  stop rc n w = record { rc = rc; loop_count = n; world = w; last = none; made = 0 }

  -- A measurement that ends the search: close enough to the duration.
  abbrev pub is_close : D → D → D → Bool
  is_close duration search_tolerance actual =
      let delta = minus actual duration in
      if lt delta nought then le (negate search_tolerance) delta else le delta search_tolerance

  -- `left` passes are left. The last one does not change the loop count.
  unfoldable pub busyloop_search :
      (duration search_tolerance : D) (left curr_freq loop_count : ℕ) → W → Searched
  busyloop_search duration search_tolerance zero curr_freq loop_count w = stop (pos 0) loop_count w
  busyloop_search duration search_tolerance (suc left) curr_freq loop_count w =
      let (actual, w') = measure loop_count w in
      let delta = minus actual duration in
      let more = loops_in curr_freq (negate delta) in
      let fewer = loops_in curr_freq delta in
      let longer =
        busyloop_search duration search_tolerance left curr_freq (add_long loop_count more) w' in
      let shorter =
        busyloop_search duration search_tolerance left curr_freq (loop_count - fewer) w' in
      measured loop_count actual (
        if lt actual nought
        then stop (negsuc 2) loop_count w'
        else if left == 0
        then stop (pos 0) loop_count w'
        else if lt delta nought
        then if le (negate search_tolerance) delta
          then stop (pos 0) loop_count w'
          else if ltb (loop_count / 10) more
          then stop (negsuc 2) loop_count w'
          else if loop_count_too_long shifted loop_count
          then stop (negsuc 3) loop_count w'
          else longer
        else if le delta search_tolerance
        then stop (pos 0) loop_count w'
        else if ltb loop_count fewer
        then stop (negsuc 1) loop_count w'
        else shorter)

  -- `busyloop_search_thread`: what `lock_me_to_cpu` and `sched_fifo_enter_max` return decides
  -- whether there is a search.
  module _ (lock enter_max : W → ℤ × W) where
    abbrev pub after_enter : ℤ → Searched → ℕ → W → Searched
    after_enter (pos zero) search n w = search
    after_enter (pos (suc e)) search n w = stop (negsuc 2) n w
    after_enter (negsuc zero) search n w = stop (negsuc 0) n w
    after_enter (negsuc (suc e)) search n w = stop (negsuc 2) n w

    unfoldable pub busyloop_search_thread :
        (duration search_tolerance : D) (passes curr_freq loop_count : ℕ) → W → Searched
    busyloop_search_thread duration search_tolerance passes curr_freq loop_count w =
        let (locked, w1) = lock w in
        let (entered, w2) = enter_max w1 in
        let search = busyloop_search duration search_tolerance passes curr_freq loop_count w2 in
        if not (is_ok locked)
        then stop (negsuc 2) loop_count w1
        else after_enter entered search loop_count w2

    -- The last part of `create_cpu_busyloop`.
    abbrev pub create_object : Bool → ℕ → ℕ → ℕ → Timespec → ℤ × Option CpuBusyloop
    create_object has_memory which_cpu curr_freq loop_count duration =
        if not has_memory then (negsuc 2, none) else (
          pos 0,
          some (record {
            which_cpu = which_cpu;
            frequency = curr_freq;
            loop_count = loop_count;
            duration = duration;
          }),
        )

    -- `curr_freq` is what `cpu_freq_get` returns; the three Booleans tell whether the thread is
    -- created and joined, and whether there is memory for the object. On -4 the caller's pointer
    -- is left alone.
    unfoldable pub create_cpu_busyloop :
        (creates joins has_memory : Bool) (which_cpu curr_freq : ℕ)
        (duration search_tolerance : Timespec) (search_max_passes : ℕ)
        → W
        → ℤ × Option CpuBusyloop
    create_cpu_busyloop creates joins has_memory which_cpu curr_freq duration search_tolerance
          search_max_passes w =
        let loop_count = loops_in curr_freq (to_sec duration) in
        let s =
          busyloop_search_thread (to_sec duration) (to_sec search_tolerance) search_max_passes
            curr_freq loop_count w in
        if loop_count_too_long shifted loop_count
        then (negsuc 3, none)
        else if ltb 0 search_max_passes
        then if not creates
          then (negsuc 2, none)
          else if not joins
          then (negsuc 2, none)
          else if not (is_ok s.rc)
          then (s.rc, none)
          else create_object has_memory which_cpu curr_freq s.loop_count duration
        else create_object has_memory which_cpu curr_freq loop_count duration
