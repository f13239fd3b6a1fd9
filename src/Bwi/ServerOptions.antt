-- ===== src/Bwi/ServerOptions.antt =====
-- bwi-client_server/server.c: the options of the server, and what holds of those that it accepts.
use realtime_tests.Prelude.{
  ◌≡◌, refl, sym, Bool, true, false, not, ◌&&◌, ◌||◌, Option, none, some, List, if◌then◌else◌,
  Bool-cases, inl, inr, arith,
}
use realtime_tests.Prelude.Int.{ℤ, pos, negsuc, leb_ℤ, is_minus_one}
use realtime_tests.Getopt.{
  Exits, goes_on, fails, succeeds, Keeps, fails_if, get_options, get_options-Keeps,
}

abbrev minus_one : ℤ
minus_one = negsuc 0

pub data Opt : Type 0 where
  serving port subserver subserver_process budget period : ℤ → Opt
  help unrecognized missing : Opt

pub record Settings : Type 0 where
  pub processing_duration_ms : ℤ
  pub server_port : ℤ
  pub cbs_budget_ms : ℤ
  pub cbs_period_ms : ℤ
  pub subserver_port : ℤ
  pub subserver_pid : ℤ

abbrev pub no_settings : Settings
no_settings = record {
  processing_duration_ms = minus_one;
  server_port = minus_one;
  cbs_budget_ms = minus_one;
  cbs_period_ms = minus_one;
  subserver_port = minus_one;
  subserver_pid = minus_one;
}

abbrev pub is_port : ℤ → Bool
is_port n = leb_ℤ (pos 1024) n && leb_ℤ n (pos 65535)

-- `unreachable` is whether the signal 0 to a process fails with EPERM or ESRCH.
unfoldable pub set_option : (ℤ → Bool) → Opt → Settings → Exits Settings
set_option unreachable (serving n) s =
    fails_if (not (leb_ℤ (pos 0) n)) (record s { processing_duration_ms = n })
set_option unreachable (port n) s = fails_if (not (is_port n)) (record s { server_port = n })
set_option unreachable (subserver n) s =
    fails_if (not (is_port n)) (record s { subserver_port = n })
set_option unreachable (subserver_process n) s =
    fails_if (unreachable n) (record s { subserver_pid = n })
set_option unreachable (budget n) s = goes_on (record s { cbs_budget_ms = n })
set_option unreachable (period n) s = goes_on (record s { cbs_period_ms = n })
set_option unreachable help s = succeeds
set_option unreachable unrecognized s = fails
set_option unreachable missing s = fails

-- The tests behind the loop; each failure is fatal.
unfoldable pub check_settings : Settings → Bool
check_settings s =
    not (is_minus_one s.processing_duration_ms)
    && (not (is_minus_one s.server_port)
        && (not (is_minus_one s.cbs_budget_ms && not (is_minus_one s.cbs_period_ms))
            && (not (not (is_minus_one s.cbs_budget_ms) && is_minus_one s.cbs_period_ms)
                && ((if not (is_minus_one s.cbs_budget_ms) && not (is_minus_one s.cbs_period_ms)
                      then not (leb_ℤ s.cbs_budget_ms (pos 0))
                        && leb_ℤ s.cbs_budget_ms s.cbs_period_ms
                      else true)
                    && not (not (is_minus_one s.subserver_port) && is_minus_one s.subserver_pid)))))

abbrev pub checked : Exits Settings → Exits Settings
checked (goes_on s) = fails_if (not (check_settings s)) s
checked fails = fails
checked succeeds = succeeds

unfoldable pub settings : (ℤ → Bool) → List Opt → Exits Settings
settings unreachable os = checked (get_options (set_option unreachable) os no_settings)

-- The reservation that the server asks SCHED_DEADLINE for, as a budget and a period.
unfoldable pub cbs_of : Settings → Option (ℤ × ℤ)
cbs_of s =
    if not (is_minus_one s.cbs_budget_ms) && not (is_minus_one s.cbs_period_ms)
    then some (s.cbs_budget_ms, s.cbs_period_ms)
    else none

abbrev IsFine : Settings → Type 0
IsFine s =
    ((is_minus_one s.processing_duration_ms || leb_ℤ (pos 0) s.processing_duration_ms)
      && ((is_minus_one s.server_port || is_port s.server_port)
          && (is_minus_one s.subserver_port || is_port s.subserver_port)))
    ≡ true

set_option-IsFine :
    (u : ℤ → Bool) (o : Opt) (s : Settings) → IsFine s → Keeps IsFine (set_option u o s)
unfolding set_option
set_option-IsFine u (Opt.serving n) s h = ground arith
set_option-IsFine u (Opt.port n) s h = ground arith
set_option-IsFine u (Opt.subserver n) s h = ground arith
set_option-IsFine u (Opt.subserver_process n) s h = ground arith
set_option-IsFine u (Opt.budget n) s h = h
set_option-IsFine u (Opt.period n) s h = h
set_option-IsFine u Opt.help s h = tt
set_option-IsFine u Opt.unrecognized s h = tt
set_option-IsFine u Opt.missing s h = tt

-- A reservation has a positive budget of no more than its period.
abbrev pub is_proper : Option (ℤ × ℤ) → Bool
is_proper none = true
is_proper (some (q, t)) = leb_ℤ (pos 1) q && leb_ℤ q t

-- What the help text promises.
pub record IsAccepted (s : Settings) : Type 0 where
  pub serves : leb_ℤ (pos 0) s.processing_duration_ms ≡ true
  pub has_port : is_port s.server_port ≡ true
  pub has_subserver :
      (is_minus_one s.subserver_port
        || (is_port s.subserver_port && not (is_minus_one s.subserver_pid)))
      ≡ true
  pub reserves : is_proper (cbs_of s) ≡ true
  pub both : is_minus_one s.cbs_budget_ms ≡ is_minus_one s.cbs_period_ms

positive : (n : ℤ) → leb_ℤ n (pos 0) ≡ false → leb_ℤ (pos 1) n ≡ true
positive (pos n) h = ground arith
positive (negsuc n) h = absurd (ground arith)

check_settings-IsAccepted : (s : Settings) → IsFine s → check_settings s ≡ true → IsAccepted s
unfolding check_settings cbs_of
check_settings-IsAccepted s fine ok = record {
  serves = ground arith;
  has_port = ground arith;
  has_subserver = ground arith;
  reserves = ground (arith, positive s.cbs_budget_ms);
  both = ground arith;
}

checked-IsAccepted :
    (x : Exits Settings) (s : Settings) → Keeps IsFine x → checked x ≡ goes_on s → IsAccepted s
checked-IsAccepted (goes_on s') s h e = elim (Bool-cases (check_settings s')) [
  | inl ok ↦
      let same : s' ≡ s = ground (arith, ok) in
      check_settings-IsAccepted s (rw (sym same) h) (rw (sym same) ok)
  | inr bad ↦ absurd (ground (arith, bad))
]
checked-IsAccepted fails s h e = absurd (ground arith)
checked-IsAccepted succeeds s h e = absurd (ground arith)

-- Whatever options are given, in any order, and whichever processes can be signalled: if the
-- server accepts them, then its serving duration is not negative, its port is unprivileged, a
-- subserver has an unprivileged port and a PID, and CBS_BUDGET and CBS_PERIOD are given both or
-- not at all, where the reservation that it then asks for has a positive budget of no more than
-- its period.
pub server_settings_lem :
    (unreachable : ℤ → Bool) (os : List Opt) (s : Settings)
    → settings unreachable os ≡ goes_on s
    → IsAccepted s
unfolding settings
server_settings_lem unreachable os s e =
    checked-IsAccepted (get_options (set_option unreachable) os no_settings) s
      (get_options-Keeps IsFine (set_option unreachable) (set_option-IsFine unreachable) os
        no_settings refl)
      e
