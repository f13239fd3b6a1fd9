-- ===== src/Bwi/Driver/Argv.antt =====
-- bwi-client_server/main.c: `procs_make_argv` and the options that it and `procs_create` adjust.
use realtime_tests.Prelude.{
  ℕ, suc, ◌+◌, ◌-◌, ◌*◌, Bool, false, ◌&&◌, Option, none, some, List, [], ◌∷◌, ◌==◌, if◌then◌else◌,
  length, take,
}
use realtime_tests.Prelude.Int.{ℤ, pos, negsuc}
use realtime_tests.Time.Text.{print_lu}
use realtime_tests.Bwi.Driver.{Proc, tokens}

-- `snprintf (arg, strlen (arg), ...)`: the last character is lost to the NUL.
abbrev pub overwritten : List ℕ → List ℕ → List ℕ
overwritten text arg = take (length arg - 1) text

abbrev pub is_option : ℕ → List ℕ → Bool
is_option c [] = false
is_option c (d ∷ []) = false
is_option c (d ∷ (e ∷ es)) = d == b'-' && e == c

abbrev pub adjust_next : List ℕ → List (List ℕ) → List (List ℕ)
adjust_next text [] = []
adjust_next text (arg ∷ args) = overwritten text arg ∷ args

-- The first argument that `find_argv_to_adjust` finds, overwritten.
abbrev pub adjust_here : ℕ → List ℕ → List ℕ → List (List ℕ) → List (List ℕ)
adjust_here c text (d ∷ (e ∷ (f ∷ fs))) args = (d ∷ e ∷ overwritten text (f ∷ fs)) ∷ args
adjust_here c text arg args = arg ∷ adjust_next text args

unfoldable pub adjust : ℕ → List ℕ → List (List ℕ) → List (List ℕ)
adjust c text [] = []
adjust c text (arg ∷ args) =
    let rest = adjust c text args in
    if is_option c arg then adjust_here c text arg args else arg ∷ rest

-- The format %d.
abbrev pub print_d : ℤ → List ℕ
print_d (pos n) = print_lu n
print_d (negsuc n) = b'-' ∷ print_lu (suc n)

-- The variables that the pointers of a process lead to. The PID of a server is -1 before it runs.
pub record Variables : Type 0 where
  pub proc_id : ℕ → ℤ
  pub duration_ms : ℕ
  pub ftrace_start : ℤ
  pub ftrace_stop : ℤ

abbrev pub adjust_pid : Variables → Option ℕ → List (List ℕ) → List (List ℕ)
adjust_pid vars none argv = argv
adjust_pid vars (some n) argv = adjust b'v' (print_d (vars.proc_id n)) argv

abbrev pub adjust_if : Bool → ℕ → List ℕ → List (List ℕ) → List (List ℕ)
adjust_if there c text argv = if there then adjust c text argv else argv

-- A round of `procs_make_argv`, with memory.
unfoldable pub make_argv : Variables → Proc → Proc
make_argv vars p =
    let argv = adjust_pid vars p.server_pid (tokens p.args []) in
    let argv' = adjust_if p.duration_ms b'x' (print_lu vars.duration_ms) argv in
    let argv'' = adjust_if p.ftrace_start b'r' (print_d vars.ftrace_start) argv' in
    let argv''' = adjust_if p.ftrace_stop b'l' (print_d vars.ftrace_stop) argv'' in
    record p { argv = some argv''' }

-- The adjustment of `procs_create`, before the process starts.
unfoldable pub adjust_subserver : Variables → Proc → Proc
adjust_subserver vars p = elim (p.argv) [
  | none ↦ p
  | some argv ↦ record p { argv = some (adjust_pid vars p.subserver_pid argv) }
]

-- `has_memory` is asked by `malloc` for a number of bytes: a copy of the arguments, and the array
-- of pointers. `p` stands in the list as it was before a lack of memory.
unfoldable pub procs_make_argv : (ℕ → Bool) → Variables → List Proc → ℤ × List Proc
procs_make_argv has_memory vars [] = (pos 0, [])
procs_make_argv has_memory vars (p ∷ ps) =
    let (rc, ps') = procs_make_argv has_memory vars ps in
    if has_memory (length p.args + 1) && has_memory (8 * (length (tokens p.args []) + 1))
    then (rc, make_argv vars p ∷ ps')
    else (negsuc 0, p ∷ ps)
