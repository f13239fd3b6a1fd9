-- ===== src/Hog/Cycles.antt =====
-- cpu_hog_cbs.c: the cycles of the hog, until its time is over.
use realtime_tests.Prelude.{
  ℕ, zero, suc, ◌+◌, ◌-◌, ◌<◌, ◌≤◌, ◌≡◌, refl, Bool, true, false, Option, none, some, if◌then◌else◌,
  Bool-cases, inl, inr, arith,
}
use realtime_tests.Time.{Timespec, UtilityTime, zeroed, IsNormal, to_ns, minus, utility_time_ge}
use realtime_tests.Time.Exact.{minus_exact, comparisons_exact}

abbrev pub variable : Timespec → UtilityTime
variable t = record zeroed { t = t }

-- The clock, the busy loop and `clock_nanosleep` over the state of the world.
module _ {W : Type 0} (clock : W → Timespec × W) (busy : W → W) (sleep : Timespec → W → W) where
  -- How `hog_cpu` ends: with the value of the counter. `running` is a loop out of fuel.
  pub data Hogged : Type 0 where
    ended : ℕ → W → Hogged
    running : Hogged

  -- `busyloop_sleep_cycle_with_break` and `busyloop_sleep_cycle_no_break`, without the counter.
  unfoldable pub cycle : Option Timespec → W → W
  cycle none w = busy w
  cycle (some break_time) w = sleep break_time (busy w)

  -- `break_at_stopping_time`
  unfoldable pub break_at_stopping_time : Timespec → Timespec → W → Bool × W
  break_at_stopping_time max_duration t1 w =
      let (t2, w') = clock w in
      (utility_time_ge (variable (minus (variable t2) (variable t1))) (variable max_duration), w')

  -- The loops of `hog_cpu`, from the reading `t1` on.
  unfoldable pub hog_loop : ℕ → Option Timespec → Option Timespec → Timespec → ℕ → W → Hogged
  hog_loop zero break_time max_duration t1 chunk_counter w = running
  hog_loop (suc fuel) break_time none t1 chunk_counter w =
      hog_loop fuel break_time none t1 (chunk_counter + 1) (cycle break_time w)
  hog_loop (suc fuel) break_time (some max) t1 chunk_counter w =
      let (over, w') = break_at_stopping_time max t1 (cycle break_time w) in
      let more = hog_loop fuel break_time (some max) t1 (chunk_counter + 1) w' in
      if over then ended (chunk_counter + 1) w' else more

  unfoldable pub hog_cpu : ℕ → Option Timespec → Option Timespec → W → Hogged
  hog_cpu fuel break_time max_duration w =
      let (t1, w') = clock w in hog_loop fuel break_time max_duration t1 0 w'

  -- A clock that reads the nanoseconds of the world, in range, and never goes back, in a world in
  -- which a cycle that starts before the end takes one nanosecond at least.
  pub record Advances (elapse : W → ℕ) (end : ℕ) (break_time : Option Timespec) : Type 0 where
    pub reads : (w : W) → to_ns (clock w).0 ≡ elapse w
    pub normal : (w : W) → IsNormal (clock w).0
    pub onward : (w : W) → elapse w ≤ elapse (clock w).1
    pub stays : (w : W) → elapse w ≤ elapse (cycle break_time w)
    pub takes : (w : W) → elapse w < end → elapse w + 1 ≤ elapse (cycle break_time w)

  -- It ended, with the time over and a number of cycles between two bounds.
  abbrev pub IsOver : (W → ℕ) → ℕ → ℕ → ℕ → Hogged → Type 0
  IsOver elapse end low high running = ⊥
  IsOver elapse end low high (ended n w) = (low < n) × (n ≤ high) × (end ≤ elapse w)

  IsOver-widen :
      (elapse : W → ℕ) (end end' low low' high high' : ℕ) (x : Hogged)
      → end' ≤ end
      → low' ≤ low
      → high ≤ high'
      → IsOver elapse end low high x
      → IsOver elapse end' low' high' x
  IsOver-widen elapse end end' low low' high high' running b l h e = e
  IsOver-widen elapse end end' low low' high high' (ended n w) b l h (more, few, over) =
      (omega arith, omega arith, omega arith)

  stopping_lem :
      (elapse : W → ℕ) (end : ℕ) (break_time : Option Timespec) (max t1 : Timespec) (w : W)
      → Advances elapse end break_time
      → IsNormal max
      → IsNormal t1
      → ((break_at_stopping_time max t1 w).0 ≡ true → to_ns max ≤ elapse w - to_ns t1)
        × ((break_at_stopping_time max t1 w).0 ≡ false → elapse w - to_ns t1 < to_ns max)
        × ((break_at_stopping_time max t1 w).1 ≡ (clock w).1)
  unfolding break_at_stopping_time
  stopping_lem elapse end break_time max t1 w a nm nt =
      let (e, normal) = minus_exact (variable (clock w).0) (variable t1) (a.normal w) nt in
      let ge =
        (comparisons_exact (variable (minus (variable (clock w).0) (variable t1))) (variable max)
          normal nm).4 in
      (
        λ over. omega (arith, ge.0 over, e, a.reads w),
        λ early. ground (arith, ge, e, a.reads w),
        refl,
      )

  hog_loop-IsOver :
      (elapse : W → ℕ) (fuel : ℕ) (break_time : Option Timespec) (max t1 : Timespec) (n : ℕ) (w : W)
      → Advances elapse (to_ns t1 + to_ns max) break_time
      → IsNormal max
      → IsNormal t1
      → 0 < fuel
      → to_ns t1 ≤ elapse w
      → to_ns t1 + to_ns max ≤ elapse w + fuel
      → IsOver elapse
          (to_ns t1 + to_ns max)
          n
          (n + fuel)
          (hog_loop fuel break_time (some max) t1 n w)
  unfolding hog_loop
  hog_loop-IsOver elapse zero break_time max t1 n w a nm nt some_fuel since enough =
      absurd (omega arith)
  hog_loop-IsOver elapse (suc fuel) break_time max t1 n w a nm nt some_fuel since enough =
      let c = cycle break_time w in
      let (over, early, next) =
        stopping_lem elapse (to_ns t1 + to_ns max) break_time max t1 c a nm nt in
      elim (Bool-cases (break_at_stopping_time max t1 c).0) [
        | inl done ↦
            rw (done, next)
              (omega arith, omega arith, omega (arith, over done, a.stays w, a.onward c))
        | inr going ↦
            let less = early going in
            let later = a.takes w (omega (arith, less, a.stays w)) in
            let ih =
              hog_loop-IsOver elapse fuel break_time max t1 (n + 1) (clock c).1 a nm nt
                (omega (arith, less, later)) (omega (arith, later, a.onward c))
                (omega (arith, later, a.onward c)) in
            rw (going, next)
              (IsOver-widen elapse (to_ns t1 + to_ns max) (to_ns t1 + to_ns max) (n + 1) n
                (n + 1 + fuel) (n + suc fuel)
                (hog_loop fuel break_time (some max) t1 (n + 1) (clock c).1) (omega arith)
                (omega arith) (omega arith) ih)
      ]

  hog_loop_forever :
      (fuel : ℕ) (break_time : Option Timespec) (t1 : Timespec) (n : ℕ) (w : W)
      → hog_loop fuel break_time none t1 n w ≡ running
  unfolding hog_loop
  hog_loop_forever zero break_time t1 n w = refl
  hog_loop_forever (suc fuel) break_time t1 n w =
      hog_loop_forever fuel break_time t1 (n + 1) (cycle break_time w)

  -- With a stopping time, on a clock that stays in range and does not go back, and with cycles
  -- that take a nanosecond at least if they start before the stopping time has passed, `hog_cpu`
  -- ends, after one cycle at least and one more than the nanoseconds of the stopping time at
  -- most, and not before that time has passed.
  pub hog_cpu_lem :
      (elapse : W → ℕ) (break_time : Option Timespec) (max : Timespec) (w : W)
      → Advances elapse (elapse w + to_ns max) break_time
      → IsNormal max
      → IsOver elapse
          (elapse w + to_ns max)
          0
          (to_ns max + 1)
          (hog_cpu (to_ns max + 1) break_time (some max) w)
  unfolding hog_cpu
  hog_cpu_lem elapse break_time max w a nm =
      let a' : Advances elapse (to_ns (clock w).0 + to_ns max) break_time = rw (a.reads w) a in
      IsOver-widen elapse (to_ns (clock w).0 + to_ns max) (elapse w + to_ns max) 0 0
        (0 + (to_ns max + 1)) (to_ns max + 1)
        (hog_loop (to_ns max + 1) break_time (some max) (clock w).0 0 (clock w).1)
        (omega (arith, a.reads w)) (omega arith) (omega arith)
        (hog_loop-IsOver elapse (to_ns max + 1) break_time max (clock w).0 0 (clock w).1 a' nm
          (a.normal w) (omega arith) (omega (arith, a.reads w, a.onward w))
          (omega (arith, a.reads w, a.onward w)))

  -- Without a stopping time `hog_cpu` never ends.
  pub hog_cpu_forever :
      (fuel : ℕ) (break_time : Option Timespec) (w : W) → hog_cpu fuel break_time none w ≡ running
  unfolding hog_cpu
  hog_cpu_forever fuel break_time w = hog_loop_forever fuel break_time (clock w).0 0 (clock w).1
