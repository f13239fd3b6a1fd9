-- ===== src/Bwi/Client/Accepted.antt =====
-- bwi-client_server/client.c: what holds of the options that the client accepts, and of its task.
use realtime_tests.Prelude.{
  ℕ, ◌+◌, ◌*◌, ◌^◌, ◌<◌, ◌≤◌, ◌≡◌, refl, sym, Bool, true, false, not, ◌&&◌, ◌||◌, some, List, leb,
  Bool-cases, inl, inr, arith,
}
use realtime_tests.Prelude.Int.{ℤ, pos, negsuc, ◌+ℤ◌, leb_ℤ, is_minus_one}
use native.Mathlib.Nat.{le-div_iff_mul-le}
use realtime_tests.Time.{Timespec, million, TimeUnit, IsNormal, to_ns, minus, utility_time_gt}
use realtime_tests.Time.Exact.{minus_exact, comparisons_exact, to_utility_time_fields_exact}
use realtime_tests.Getopt.{Exits, goes_on, fails, succeeds, Keeps, get_options, get_options-Keeps}
use realtime_tests.Bwi.Client.{as_time}
use realtime_tests.Bwi.Client.Options.{
  Opt, Settings, no_settings, is_bad_port, set_option, wcet_of, check_settings, checked, settings,
  number, in_ms, charge, thread_prms,
}

-- Not given, or at least so much.
abbrev is_from : ℤ → ℤ → Bool
is_from least n = is_minus_one n || leb_ℤ least n

abbrev IsFine : Settings → Type 0
IsFine s =
    (is_from (pos 0) s.prologue_duration_ms
      && (is_from (pos 0) s.expected_waiting_ms
          && (is_from (pos 0) s.epilogue_duration_ms
              && (is_from (pos 1) s.period_ms
                  && (is_from (pos 1) s.cbs_budget_ms
                      && (is_minus_one s.server_port || not (is_bad_port s.server_port)))))))
    ≡ true

set_option-IsFine : (o : Opt) (s : Settings) → IsFine s → Keeps IsFine (set_option o s)
unfolding set_option
set_option-IsFine (Opt.offset n) s h = ground arith
set_option-IsFine (Opt.duration n) s h = ground arith
set_option-IsFine (Opt.trace_limit n) s h = ground arith
set_option-IsFine (Opt.prologue n) s h = ground arith
set_option-IsFine (Opt.waiting n) s h = ground arith
set_option-IsFine (Opt.epilogue n) s h = ground arith
set_option-IsFine (Opt.budget n) s h = ground arith
set_option-IsFine (Opt.period n) s h = ground arith
set_option-IsFine (Opt.port n) s h = ground arith
set_option-IsFine Opt.with_bwi s h = h
set_option-IsFine (Opt.server n) s h = h
set_option-IsFine (Opt.stop_at n) s h = h
set_option-IsFine (Opt.trace_at n) s h = h
set_option-IsFine (Opt.stats_file f) s h = h
set_option-IsFine Opt.help s h = tt
set_option-IsFine Opt.unrecognized s h = tt
set_option-IsFine Opt.missing s h = tt

-- What the help text promises of the numbers.
pub record IsAccepted (s : Settings) : Type 0 where
  pub some_period : 0 < number s.period_ms
  pub period_fits : number s.period_ms ≤ number s.duration_ms
  pub port_fits : (1024 ≤ number s.server_port) × (number s.server_port ≤ 65535)
  pub wcet_sum :
      number (wcet_of s)
      ≡ number s.prologue_duration_ms + number s.expected_waiting_ms + number s.epilogue_duration_ms
  pub budget_fits : number (thread_prms s).budget_ms ≤ number s.period_ms
  pub some_budget : (is_minus_one s.cbs_budget_ms || leb 1 (number s.cbs_budget_ms)) ≡ true

is_from-number : (k : ℕ) (n : ℤ) → is_from (pos k) n ≡ true → is_minus_one n ≡ false → k ≤ number n
is_from-number k (pos n) h given = ground arith
is_from-number k (negsuc n) h given = absurd (ground arith)

leb_ℤ-number : (a b : ℤ) → leb_ℤ a b ≡ true → number a ≤ number b
leb_ℤ-number (pos a) (pos b) h = ground arith
leb_ℤ-number (pos a) (negsuc b) h = absurd (ground arith)
leb_ℤ-number (negsuc a) b h = omega arith

is_bad_port-number :
    (n : ℤ)
    → (is_minus_one n || not (is_bad_port n)) ≡ true
    → is_minus_one n ≡ false
    → (1024 ≤ number n) × (number n ≤ 65535)
is_bad_port-number (pos n) h given = (ground arith, ground arith)
is_bad_port-number (negsuc n) h given = absurd (ground arith)

sum-number :
    (a b c : ℤ)
    → is_from (pos 0) a ≡ true
    → is_from (pos 0) b ≡ true
    → is_from (pos 0) c ≡ true
    → is_minus_one a ≡ false
    → is_minus_one b ≡ false
    → is_minus_one c ≡ false
    → number (a +ℤ b +ℤ c) ≡ number a + number b + number c
sum-number (pos a) (pos b) (pos c) fa fb fc ga gb gc = ground arith
sum-number (negsuc a) b c fa fb fc ga gb gc = absurd (ground arith)
sum-number (pos a) (negsuc b) c fa fb fc ga gb gc = absurd (ground arith)
sum-number (pos a) (pos b) (negsuc c) fa fb fc ga gb gc = absurd (ground arith)

check_settings-IsAccepted : (s : Settings) → IsFine s → check_settings s ≡ true → IsAccepted s
unfolding check_settings
check_settings-IsAccepted s fine ok = record {
  some_period = is_from-number 1 s.period_ms (ground arith) (ground arith);
  period_fits = leb_ℤ-number s.period_ms s.duration_ms (ground arith);
  port_fits = is_bad_port-number s.server_port (ground arith) (ground arith);
  wcet_sum =
      sum-number s.prologue_duration_ms s.expected_waiting_ms s.epilogue_duration_ms (ground arith)
        (ground arith) (ground arith) (ground arith) (ground arith) (ground arith);
  budget_fits = leb_ℤ-number (thread_prms s).budget_ms s.period_ms (ground arith);
  some_budget = elim (Bool-cases (is_minus_one s.cbs_budget_ms)) [
    | inl none_given ↦ rw none_given refl
    | inr given ↦ ground (arith, is_from-number 1 s.cbs_budget_ms (ground (arith, given)) given)
  ];
}

checked-IsAccepted :
    (x : Exits Settings) (s : Settings) → Keeps IsFine x → checked x ≡ goes_on s → IsAccepted s
checked-IsAccepted (goes_on s') s h e = elim (Bool-cases (check_settings s')) [
  | inl ok ↦
      let same : s' ≡ s = ground (arith, ok) in
      check_settings-IsAccepted s (rw (sym same) h) (rw (sym same) ok)
  | inr bad ↦ absurd (ground (arith, bad))
]
checked-IsAccepted fails s h e = absurd (ground arith)
checked-IsAccepted succeeds s h e = absurd (ground arith)

in_ms_exact :
    (n : ℤ) → number n < 2 ^ 31 → (to_ns (in_ms n) ≡ number n * million) × IsNormal (in_ms n)
in_ms_exact n small = to_utility_time_fields_exact (number n) TimeUnit.ms (omega arith)

-- The part that is charged, as a time longer than the overhead, loses exactly the overhead.
shortened :
    (t overhead : Timespec)
    → IsNormal t
    → IsNormal overhead
    → utility_time_gt (as_time t) (as_time overhead) ≡ true
    → (to_ns (minus (as_time t) (as_time overhead)) + to_ns overhead ≡ to_ns t)
      × (to_ns overhead < to_ns t)
shortened t overhead nt n longer =
    let over = (comparisons_exact (as_time t) (as_time overhead) nt n).3 in
    let (left, nleft) = minus_exact (as_time t) (as_time overhead) nt n in
    (omega (arith, left, over.0 longer), over.0 longer)

-- The overheads leave room: what is left of the durations and the overheads add up to the
-- durations.
charge_exact :
    (overhead : Timespec) (s : Settings) (prologue epilogue : Timespec)
    → IsNormal overhead
    → number s.prologue_duration_ms < 2 ^ 31
    → number s.epilogue_duration_ms < 2 ^ 31
    → charge overhead s ≡ some (prologue, epilogue)
    → (to_ns prologue + to_ns epilogue + to_ns overhead
        ≡ (number s.prologue_duration_ms + number s.epilogue_duration_ms) * million)
      × (to_ns overhead < (number s.prologue_duration_ms + number s.epilogue_duration_ms) * million)
unfolding charge
charge_exact overhead s prologue epilogue n small_p small_e h =
    let (p_ns, np) = in_ms_exact s.prologue_duration_ms small_p in
    let (e_ns, ne) = in_ms_exact s.epilogue_duration_ms small_e in
    elim (Bool-cases
      (utility_time_gt (as_time (in_ms s.epilogue_duration_ms)) (as_time overhead))) [
        | inl longer ↦
            let (sum, less) = shortened (in_ms s.epilogue_duration_ms) overhead ne n longer in
            let same_p : in_ms s.prologue_duration_ms ≡ prologue = ground (arith, longer) in
            let same_e : minus (as_time (in_ms s.epilogue_duration_ms)) (as_time overhead)
                ≡ epilogue =
              ground (arith, longer) in
            rw (sym same_p, sym same_e) (omega (arith, sum, p_ns, e_ns), omega (arith, less, e_ns))
        | inr shorter ↦
            elim (Bool-cases
              (utility_time_gt (as_time (in_ms s.prologue_duration_ms)) (as_time overhead))) [
                | inl longer ↦
                    let (sum, less) =
                      shortened (in_ms s.prologue_duration_ms) overhead np n longer in
                    let same_p : minus (as_time (in_ms s.prologue_duration_ms)) (as_time overhead)
                        ≡ prologue =
                      ground (arith, longer, shorter) in
                    let same_e : in_ms s.epilogue_duration_ms ≡ epilogue =
                      ground (arith, longer, shorter) in
                    rw (sym same_p, sym same_e)
                      (omega (arith, sum, p_ns, e_ns), omega (arith, less, p_ns))
                | inr short ↦ absurd (ground (arith, shorter, short))
              ]
      ]

-- Whatever options are given, in any order: if the client accepts them, and finds room for a
-- proper overhead, then its port is unprivileged, 0 < budget <= period <= duration, with the sum
-- of the three durations for a budget that is not given; its log has at least one slot; and its
-- two busy loops take, with the overhead, exactly as long as the prologue and the epilogue that
-- were asked for, if the sum of the three durations is an `int`.
pub client_settings_lem :
    (os : List Opt) (s : Settings) (overhead prologue epilogue : Timespec)
    → settings os ≡ goes_on s
    → charge overhead s ≡ some (prologue, epilogue)
    → IsNormal overhead
    → number s.prologue_duration_ms + number s.expected_waiting_ms + number s.epilogue_duration_ms
      < 2 ^ 31
    → IsAccepted s
      × (0 < number (thread_prms s).budget_ms)
      × (0 < (thread_prms s).ringbuf_slot_count)
      × (to_ns prologue + to_ns epilogue + to_ns overhead
          ≡ (number s.prologue_duration_ms + number s.epilogue_duration_ms) * million)
unfolding settings
client_settings_lem os s overhead prologue epilogue e charged n small =
    let a =
      checked-IsAccepted (get_options set_option os no_settings) s
        (get_options-Keeps IsFine set_option set_option-IsFine os no_settings refl) e in
    let (exact, room) =
      charge_exact overhead s prologue epilogue n (omega (arith, small)) (omega (arith, small))
        charged in
    (
      a,
      elim (Bool-cases (is_minus_one s.cbs_budget_ms)) [
        | inl none_given ↦ rw none_given (omega (arith, room, a.wcet_sum))
        | inr given ↦ ground (arith, given, a.some_budget)
      ],
      (le-div_iff_mul-le {k = number s.period_ms} {x = 1} {y = number s.duration_ms}
            a.some_period).1
          (omega (arith, a.period_fits)),
      exact,
    )
