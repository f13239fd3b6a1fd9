-- ===== src/Hog/Accepted.antt =====
-- hrt_cbs.c: what holds of the options that the program accepts, and of its task.
use realtime_tests.Prelude.{
  ℕ, ◌*◌, ◌/◌, ◌^◌, ◌<◌, ◌≤◌, ◌≡◌, refl, sym, Bool, true, false, ◌&&◌, ◌||◌, some, List, leb,
  Bool-cases, inl, inr, long_mod, arith,
}
use realtime_tests.Prelude.Int.{ℤ, pos, negsuc, leb_ℤ, is_minus_one}
use native.Mathlib.Nat.{div-le_self, le-div_iff_mul-le}
use realtime_tests.Time.{Timespec}
use realtime_tests.Job.{JobstatsRingbuf, sizeof_job_statistics, jobstats_ringbuf_create}
use realtime_tests.Job.Logged.{create-IsFresh}
use realtime_tests.Task.{encode_task_statistics}
use realtime_tests.Task.Create.{created, new_task, task_create}
use realtime_tests.Task.Created.{ring_of}
use realtime_tests.Task.EndToEnd.{working_environment, creates_lem}
use realtime_tests.Getopt.{Exits, goes_on, fails, succeeds, Keeps, get_options, get_options-Keeps}
use realtime_tests.Hog.Options.{
  Opt, Settings, no_settings, if_positive, set_option, is_given, check_settings, checked, settings,
  number, task_of,
}

-- Every number is -1, for not given, or positive.
abbrev is_fine : ℤ → Bool
is_fine n = is_minus_one n || leb_ℤ (pos 1) n

abbrev are_fine : Settings → Bool
are_fine s =
    is_fine s.wcet_ms
    && (is_fine s.budget_ms
        && (is_fine s.deadline_ms && (is_fine s.period_ms && is_fine s.duration_ms)))

abbrev AreFine : Settings → Type 0
AreFine s = are_fine s ≡ true

leb_ℤ-positive : (n : ℤ) → leb_ℤ n (pos 0) ≡ false → leb_ℤ (pos 1) n ≡ true
leb_ℤ-positive (pos n) h = ground arith
leb_ℤ-positive (negsuc n) h = absurd (ground arith)

if_positive-AreFine :
    (n : ℤ) (s : Settings)
    → (leb_ℤ (pos 1) n ≡ true → are_fine s ≡ true)
    → Keeps AreFine (if_positive n s)
if_positive-AreFine n s h = elim (Bool-cases (leb_ℤ n (pos 0))) [
  | inl small ↦ rw small tt
  | inr big ↦ rw big (h (leb_ℤ-positive n big))
]

set_option-AreFine : (o : Opt) (s : Settings) → AreFine s → Keeps AreFine (set_option o s)
unfolding set_option
set_option-AreFine (Opt.name n) s h = h
set_option-AreFine (Opt.stats_file f) s h = h
set_option-AreFine (Opt.wcet n) s h = if_positive-AreFine n _ (λ p. ground arith)
set_option-AreFine (Opt.duration n) s h = if_positive-AreFine n _ (λ p. ground arith)
set_option-AreFine (Opt.period n) s h = if_positive-AreFine n _ (λ p. ground arith)
set_option-AreFine (Opt.budget n) s h = if_positive-AreFine n _ (λ p. ground arith)
set_option-AreFine (Opt.deadline n) s h = if_positive-AreFine n _ (λ p. ground arith)
set_option-AreFine Opt.help s h = tt
set_option-AreFine Opt.unrecognized s h = tt
set_option-AreFine Opt.missing s h = tt

-- What the help text promises of the numbers.
pub record IsAccepted (s : Settings) : Type 0 where
  pub named : is_given s.task_name && is_given s.stats_file_path ≡ true
  pub some_wcet : 0 < number s.wcet_ms
  pub wcet_fits : number s.wcet_ms ≤ number s.budget_ms
  pub budget_fits : number s.budget_ms ≤ number s.period_ms
  pub period_fits : number s.period_ms ≤ number s.duration_ms
  pub deadline_fits :
      is_minus_one s.deadline_ms
        || (leb (number s.wcet_ms) (number s.deadline_ms)
            && leb (number s.deadline_ms) (number s.budget_ms))
      ≡ true

leb_ℤ-number :
    (a b : ℤ) → leb_ℤ (pos 1) a ≡ true → leb_ℤ a b ≡ true → (0 < number a) × (number a ≤ number b)
leb_ℤ-number (pos a) (pos b) h le = (ground arith, ground arith)
leb_ℤ-number (pos a) (negsuc b) h le = absurd (ground arith)
leb_ℤ-number (negsuc a) b h le = absurd (ground arith)

check_settings-IsAccepted :
    (s : Settings) → are_fine s ≡ true → check_settings s ≡ true → IsAccepted s
unfolding check_settings
check_settings-IsAccepted s fine ok =
    let w : leb_ℤ (pos 1) s.wcet_ms ≡ true = ground arith in
    let b : leb_ℤ (pos 1) s.budget_ms ≡ true = ground arith in
    let t : leb_ℤ (pos 1) s.period_ms ≡ true = ground arith in
    let bt : leb_ℤ s.budget_ms s.period_ms ≡ true = ground arith in
    let tx : leb_ℤ s.period_ms s.duration_ms ≡ true = ground arith in
    let (some_budget, budget_fits) = leb_ℤ-number s.budget_ms s.period_ms b bt in
    let (some_period, period_fits) = leb_ℤ-number s.period_ms s.duration_ms t tx in
    elim (Bool-cases (is_minus_one s.deadline_ms)) [
      | inl none_given ↦
          let wb : leb_ℤ s.wcet_ms s.budget_ms ≡ true = ground (arith, none_given) in
          let (some_wcet, wcet_fits) = leb_ℤ-number s.wcet_ms s.budget_ms w wb in
          record {
            named = ground arith;
            some_wcet = some_wcet;
            wcet_fits = wcet_fits;
            budget_fits = budget_fits;
            period_fits = period_fits;
            deadline_fits = ground (arith, none_given);
          }
      | inr given ↦
          let d : leb_ℤ (pos 1) s.deadline_ms ≡ true = ground (arith, given) in
          let wd : leb_ℤ s.wcet_ms s.deadline_ms ≡ true = ground (arith, given) in
          let db : leb_ℤ s.deadline_ms s.budget_ms ≡ true = ground (arith, given) in
          let (some_wcet, wcet_deadline) = leb_ℤ-number s.wcet_ms s.deadline_ms w wd in
          let (some_deadline, deadline_budget) = leb_ℤ-number s.deadline_ms s.budget_ms d db in
          record {
            named = ground arith;
            some_wcet = some_wcet;
            wcet_fits = omega arith;
            budget_fits = budget_fits;
            period_fits = period_fits;
            deadline_fits = ground (arith, wcet_deadline, deadline_budget);
          }
    ]

checked-IsAccepted :
    (x : Exits Settings) (s : Settings) → Keeps AreFine x → checked x ≡ goes_on s → IsAccepted s
checked-IsAccepted (goes_on s') s h e = elim (Bool-cases (check_settings s')) [
  | inl ok ↦
      let same : s' ≡ s = ground (arith, ok) in
      check_settings-IsAccepted s (rw (sym same) h) (rw (sym same) ok)
  | inr bad ↦ absurd (ground (arith, bad))
]
checked-IsAccepted fails s h e = absurd (ground arith)
checked-IsAccepted succeeds s h e = absurd (ground arith)

ring_of-settings :
    (s : Settings) (t_now jo to : Timespec) (r : JobstatsRingbuf)
    → 0 < number s.duration_ms / number s.period_ms
    → jobstats_ringbuf_create (true, true) (number s.duration_ms / number s.period_ms) true ≡ some r
    → ring_of working_environment (task_of s t_now jo to) ≡ some r
unfolding ring_of task_of
ring_of-settings s t_now jo to r some_slot made = ground arith

slots_lem :
    (x t : ℕ)
    → 0 < t
    → t ≤ x
    → x < 2 ^ 31
    → (0 < x / t) × (sizeof_job_statistics * (x / t) < long_mod)
slots_lem x t some_t le small = (
  (le-div_iff_mul-le {k = t} {x = 1} {y = x} some_t).1 (omega arith),
  omega (arith, div-le_self x t),
)

-- Whatever options are given, in any order: the ones that the program accepts name the task and its
-- file, with 0 < WCET <= budget <= period <= duration, and with a deadline, if there is
-- one, between WCET and budget. From these, where every call of the system succeeds and the
-- duration is an `int`, `task_create` makes a ring buffer of as many slots as whole periods fit
-- the duration, and at least one.
pub settings_lem :
    (os : List Opt) (s : Settings) (t_now jo to : Timespec)
    → settings os ≡ goes_on s
    → number s.duration_ms < 2 ^ 31
    → IsAccepted s
      × ((r : JobstatsRingbuf) × (task_create working_environment (task_of s t_now jo to)
            ≡ created
                (new_task (task_of s t_now jo to) (some r))
                (encode_task_statistics (task_of s t_now jo to)))
          × (r.slot_count ≡ number s.duration_ms / number s.period_ms)
          × (0 < r.slot_count))
unfolding settings
settings_lem os s t_now jo to e small =
    let a =
      checked-IsAccepted (get_options set_option os no_settings) s
        (get_options-Keeps AreFine set_option set_option-AreFine os no_settings refl) e in
    let (some_slot, fits) =
      slots_lem (number s.duration_ms) (number s.period_ms)
        (omega (arith, a.some_wcet, a.wcet_fits, a.budget_fits)) a.period_fits small in
    let (r, made, size, fresh) =
      create-IsFresh (number s.duration_ms / number s.period_ms) true some_slot fits in
    (
      a,
      (
        r,
        creates_lem (task_of s t_now jo to) r (ring_of-settings s t_now jo to r some_slot made),
        size,
        omega (arith, size, some_slot),
      ),
    )
