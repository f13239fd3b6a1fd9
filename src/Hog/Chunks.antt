-- ===== src/Hog/Chunks.antt =====
-- cpu_hog_cbs.c: the options of the program, and the hog that it starts with them.
use realtime_tests.Prelude.{
  ℕ, ◌+◌, ◌*◌, ◌^◌, ◌==◌, ◌<◌, ◌≤◌, ◌≡◌, sym, Bool, true, false, not, ◌&&◌, ◌||◌, Option, none,
  some, List, if◌then◌else◌, Bool-cases, inl, inr, arith,
}
use realtime_tests.Prelude.Int.{ℤ, pos, negsuc, leb_ℤ, is_minus_one}
use realtime_tests.Time.{Timespec, million, TimeUnit, to_utility_time_fields, to_ns}
use realtime_tests.Time.Exact.{to_utility_time_fields_exact}
use realtime_tests.Getopt.{Exits, goes_on, fails, succeeds, fails_if, get_options}
use realtime_tests.Hog.Cycles.{Hogged, IsOver, Advances, hog_cpu, hog_cpu_lem}

abbrev pub minus_one : ℤ
minus_one = negsuc 0

pub data Opt : Type 0 where
  exec_time break_time budget period stopping : ℤ → Opt
  be_silent help unrecognized missing : Opt

pub record Settings : Type 0 where
  pub exec_time_ms : ℤ
  pub break_time_ms : ℤ
  pub cbs_budget_ms : ℤ
  pub cbs_period_ms : ℤ
  pub stopping_time : ℤ
  pub silent : Bool

abbrev pub no_settings : Settings
no_settings = record {
  exec_time_ms = minus_one;
  break_time_ms = minus_one;
  cbs_budget_ms = minus_one;
  cbs_period_ms = minus_one;
  stopping_time = minus_one;
  silent = false;
}

unfoldable pub set_option : Opt → Settings → Exits Settings
set_option (exec_time n) s = goes_on (record s { exec_time_ms = n })
set_option (break_time n) s = goes_on (record s { break_time_ms = n })
set_option (budget n) s = goes_on (record s { cbs_budget_ms = n })
set_option (period n) s = goes_on (record s { cbs_period_ms = n })
set_option (stopping n) s = goes_on (record s { stopping_time = n })
set_option be_silent s = goes_on (record s { silent = true })
set_option help s = succeeds
set_option unrecognized s = fails
set_option missing s = fails

abbrev pub is_positive : ℤ → Bool
is_positive n = not (leb_ℤ n (pos 0))

-- The tests behind the loop; each failure is fatal.
unfoldable pub check_settings : Settings → Bool
check_settings s =
    is_positive s.exec_time_ms
    && (leb_ℤ (pos 0) s.break_time_ms
        && (is_positive s.cbs_budget_ms
            && (leb_ℤ s.cbs_budget_ms s.cbs_period_ms
                && (is_minus_one s.stopping_time || is_positive s.stopping_time))))

abbrev pub checked : Exits Settings → Exits Settings
checked (goes_on s) = fails_if (not (check_settings s)) s
checked fails = fails
checked succeeds = succeeds

unfoldable pub settings : List Opt → Exits Settings
settings os = checked (get_options set_option os no_settings)

-- Conversions of an `int` that is not negative.
abbrev pub number : ℤ → ℕ
number (pos n) = n
number (negsuc n) = 0

abbrev pub in_ms : ℤ → Timespec
in_ms n = to_utility_time_fields (number n) TimeUnit.ms

-- The arguments of `hog_cpu`: the pointers that may be NULL.
abbrev pub break_of : Settings → Option Timespec
break_of s =
    if number s.break_time_ms == 0 && leb_ℤ (pos 0) s.break_time_ms
    then none
    else some (in_ms s.break_time_ms)

abbrev pub max_of : Settings → Option Timespec
max_of s = if is_minus_one s.stopping_time then none else some (in_ms s.stopping_time)

-- What the program promises of the numbers.
pub record IsAccepted (s : Settings) : Type 0 where
  pub some_exec_time : 0 < number s.exec_time_ms
  pub some_budget : 0 < number s.cbs_budget_ms
  pub budget_fits : number s.cbs_budget_ms ≤ number s.cbs_period_ms

is_positive-number : (n : ℤ) → is_positive n ≡ true → 0 < number n
is_positive-number (pos n) h = ground arith
is_positive-number (negsuc n) h = absurd (ground arith)

fits-number : (a b : ℤ) → leb_ℤ a b ≡ true → number a ≤ number b
fits-number (pos a) (pos b) h = ground arith
fits-number (pos a) (negsuc b) h = absurd (ground arith)
fits-number (negsuc a) b h = omega arith

checked-IsAccepted : (x : Exits Settings) (s : Settings) → checked x ≡ goes_on s → IsAccepted s
unfolding check_settings
checked-IsAccepted (goes_on s') s e = elim (Bool-cases (check_settings s')) [
  | inl ok ↦
      let same : s' ≡ s = ground (arith, ok) in
      let ok' : check_settings s ≡ true = rw (sym same) ok in
      record {
        some_exec_time = is_positive-number s.exec_time_ms (ground (arith, ok'));
        some_budget = is_positive-number s.cbs_budget_ms (ground (arith, ok'));
        budget_fits = fits-number s.cbs_budget_ms s.cbs_period_ms (ground (arith, ok'));
      }
  | inr bad ↦ absurd (ground (arith, bad))
]
checked-IsAccepted fails s e = absurd (ground arith)
checked-IsAccepted succeeds s e = absurd (ground arith)

module _ {W : Type 0} (clock : W → Timespec × W) (busy : W → W) (sleep : Timespec → W → W) where
  unfoldable pub hog : ℕ → Settings → W → Hogged clock busy sleep
  hog fuel s w = hog_cpu clock busy sleep fuel (break_of s) (max_of s) w

  -- Options with a stopping time that the program accepts reserve a positive budget of no more than
  -- the period, and the hog that is started with them ends once that many milliseconds have passed,
  -- on a clock and with cycles that go on; the stopping time is taken to be an `int`.
  pub chunks_lem :
      (elapse : W → ℕ) (os : List Opt) (s : Settings) (w : W)
      → settings os ≡ goes_on s
      → is_minus_one s.stopping_time ≡ false
      → number s.stopping_time < 2 ^ 31
      → Advances clock busy sleep elapse (elapse w + to_ns (in_ms s.stopping_time)) (break_of s)
      → IsAccepted s
        × IsOver clock busy sleep elapse
            (elapse w + number s.stopping_time * million)
            0
            (number s.stopping_time * million + 1)
            (hog (number s.stopping_time * million + 1) s w)
  unfolding settings hog
  chunks_lem elapse os s w e given small a =
      let (ns, normal) =
        to_utility_time_fields_exact (number s.stopping_time) TimeUnit.ms (omega arith) in
      let over =
        hog_cpu_lem clock busy sleep elapse (break_of s) (in_ms s.stopping_time) w a normal in
      (checked-IsAccepted (get_options set_option os no_settings) s e, rw (given, sym ns) over)
