-- ===== src/Bwi/Driver/Forced.antt =====
-- bwi-client_server/main.c: the arguments that a client is run with.
use realtime_tests.Prelude.{
  ℕ, suc, ◌-◌, ◌^◌, ◌<◌, ◌≤◌, ◌≡◌, refl, sym, ap, ◌∙◌, true, false, some, List, [], ◌∷◌, ◌++◌,
  append_assoc, append-nil, length, take, take-length, All, All-append, arith,
}
use realtime_tests.Prelude.Int.{pos}
use realtime_tests.Time.Text.{print_lu}
use realtime_tests.Time.Text.Digits.{AllDigits, print_lu-AllDigits, length-print_lu}
use realtime_tests.Bwi.Driver.{
  tokens, first_token, find_program, Proc, Driver, placeholder, int_max, ulong_max,
  parse_config_file, proc_of, args_of, Program,
}
use realtime_tests.Bwi.Driver.Argv.{overwritten, is_option, adjust, print_d, Variables, make_argv}
use realtime_tests.Bwi.Driver.Tokens.{tokens-append, tokens-placeholder}

abbrev pub IsFree : ℕ → List (List ℕ) → Type 0
IsFree c = All (λ t. is_option c t ≡ false)

-- An option alone, as in "-x".
abbrev pub option : ℕ → List ℕ
option c = b'-' ∷ c ∷ []

adjust-IsFree :
    (c : ℕ) (text arg : List ℕ) (before after : List (List ℕ))
    → IsFree c before
    → adjust c text (before ++ (option c ∷ arg ∷ after))
      ≡ before ++ (option c ∷ overwritten text arg ∷ after)
unfolding adjust
adjust-IsFree c text arg [] after h = ground arith
adjust-IsFree c text arg (t ∷ ts) after h =
    rw (h.0) (ap (λ l. t ∷ l) (adjust-IsFree c text arg ts after h.1))

AllDigits-IsFree : (c : ℕ) (ds : List ℕ) → AllDigits ds → is_option c ds ≡ false
AllDigits-IsFree c [] h = refl
AllDigits-IsFree c (d ∷ []) h = refl
AllDigits-IsFree c (d ∷ (e ∷ es)) h = ground (arith, h.0)

abbrev pub client_path : List ℕ
client_path = b'.' ∷ b'/' ∷ b'c' ∷ b'l' ∷ b'i' ∷ b'e' ∷ b'n' ∷ b't' ∷ []

-- A line of the configuration for a client, and the process that it makes.
abbrev pub client_line : List ℕ → List ℕ
client_line rest = b'C' ∷ b'L' ∷ b'I' ∷ b'E' ∷ b'N' ∷ b'T' ∷ b' ' ∷ rest

abbrev pub client_proc : List ℕ → ℕ → Proc
client_proc rest n =
    proc_of false false Program.client (args_of true false Program.client rest) (some n)

parse_client :
    (rest : List ℕ) (n : ℕ) (d : Driver)
    → d.preceding_server ≡ some n
    → parse_config_file false false true true true (client_line rest) d
      ≡ (pos 0, record d { client_procs = d.client_procs ++ (client_proc rest n ∷ []) })
unfolding parse_config_file first_token find_program
parse_client rest n d h = rw h refl

tokens_path : tokens client_path [] ≡ client_path ∷ []
unfolding tokens
tokens_path = refl

tokens_client :
    (rest : List ℕ) (n : ℕ)
    → tokens (client_proc rest n).args []
      ≡ (client_path ∷ tokens rest [])
        ++ (option b'v' ∷ print_lu int_max ∷ option b'x' ∷ print_lu ulong_max ∷ [])
tokens_client rest n =
    let server = placeholder b'v' int_max in
    let duration = placeholder b'x' ulong_max in
    tokens-append client_path (rest ++ (server ++ (duration ++ []))) []
    ∙ ap (λ ts. ts ++ tokens (rest ++ (server ++ (duration ++ []))) []) tokens_path
    ∙ ap (λ xs. client_path ∷ tokens xs [])
        (ap (λ z. rest ++ (server ++ z)) (append-nil duration)
          ∙ sym (append_assoc rest server duration))
    ∙ ap (λ ts. client_path ∷ ts)
        (tokens-placeholder (rest ++ server) b'x' ulong_max refl
          ∙ ap (λ ts. ts ++ (option b'x' ∷ print_lu ulong_max ∷ []))
              (tokens-placeholder rest b'v' int_max refl)
          ∙ append_assoc (tokens rest []) (option b'v' ∷ print_lu int_max ∷ [])
              (option b'x' ∷ print_lu ulong_max ∷ []))

-- The arguments, with the number of the server still to be lengthened, and the duration to be
-- adjusted.
client_argv :
    (rest : List ℕ) (n : ℕ) (vars : Variables)
    → IsFree b'v' (tokens rest [])
    → (make_argv vars (client_proc rest n)).argv
      ≡ some (
          adjust b'x' (print_lu vars.duration_ms) (
            (client_path ∷ tokens rest [])
            ++ (option b'v'
                ∷ overwritten (print_d (vars.proc_id n)) (print_lu int_max)
                ∷ option b'x'
                ∷ print_lu ulong_max
                ∷ [])))
unfolding make_argv
client_argv rest n vars free =
    ap (λ ts. some (adjust b'x' (print_lu vars.duration_ms) ts))
      (ap (adjust b'v' (print_d (vars.proc_id n))) (tokens_client rest n)
        ∙ adjust-IsFree b'v' (print_d (vars.proc_id n)) (print_lu int_max)
            (client_path ∷ tokens rest []) (option b'x' ∷ print_lu ulong_max ∷ []) (refl, free))

overwritten_fits :
    (text : List ℕ) (n j : ℕ)
    → length (print_lu n) ≡ suc j
    → length text ≤ j
    → overwritten text (print_lu n) ≡ text
overwritten_fits text n j same small = take-length (length (print_lu n) - 1) text (omega arith)

length-int_max : length (print_lu int_max) ≡ 10
unfolding print_lu
length-int_max = refl

length-ulong_max : length (print_lu ulong_max) ≡ 20
unfolding print_lu
length-ulong_max = refl

-- With memory and without ftrace, a line CLIENT behind a server adds one client. Where the
-- arguments on the line name neither -v nor -x, and the PID of the server has at most 9 digits
-- and the duration at most 19, the client is run with exactly these arguments, then -v and the
-- PID, then -x and the duration.
pub client_forced :
    (rest : List ℕ) (n pid : ℕ) (d : Driver) (vars : Variables)
    → d.preceding_server ≡ some n
    → IsFree b'v' (tokens rest [])
    → IsFree b'x' (tokens rest [])
    → vars.proc_id n ≡ pos pid
    → pid < 10 ^ 9
    → vars.duration_ms < 10 ^ 19
    → (p : Proc) × (parse_config_file false false true true true (client_line rest) d
        ≡ (pos 0, record d { client_procs = d.client_procs ++ (p ∷ []) }))
      × ((make_argv vars p).argv
          ≡ some (
              client_path
              ∷ (tokens rest []
                  ++ (option b'v' ∷ print_lu pid ∷ option b'x' ∷ print_lu vars.duration_ms ∷ []))))
client_forced rest n pid d vars before free_v free_x known small short =
    let number =
      ap (λ z. overwritten (print_d z) (print_lu int_max)) known
      ∙ overwritten_fits (print_lu pid) int_max 9 length-int_max (length-print_lu 8 pid small) in
    let early = client_path ∷ tokens rest [] in
    let server = option b'v' ∷ print_lu pid ∷ [] in
    let duration = option b'x' ∷ print_lu ulong_max ∷ [] in
    (
      client_proc rest n,
      parse_client rest n d before,
      client_argv rest n vars free_v
          ∙ ap
              (λ z.
                some
                  (adjust b'x' (print_lu vars.duration_ms) (early ++ (option b'v' ∷ z ∷ duration))))
              number
          ∙ ap (λ ts. some (adjust b'x' (print_lu vars.duration_ms) ts))
              (sym (append_assoc early server duration))
          ∙ ap some (
              adjust-IsFree b'x' (print_lu vars.duration_ms) (print_lu ulong_max) (early ++ server)
                []
                (All-append (λ t. is_option b'x' t ≡ false) early server (refl, free_x)
                  (refl, (AllDigits-IsFree b'x' (print_lu pid) (print_lu-AllDigits pid), tt)))
              ∙ ap (λ z. (early ++ server) ++ (option b'x' ∷ z ∷ []))
                  (overwritten_fits (print_lu vars.duration_ms) ulong_max 19 length-ulong_max
                    (length-print_lu 18 vars.duration_ms short))
              ∙ append_assoc early server (option b'x' ∷ print_lu vars.duration_ms ∷ [])),
    )

-- With memory and without ftrace, a line CLIENT behind a server, whose arguments name -x and an
-- argument of it, and no -v, adds one client: the duration is written over the argument of its
-- first -x, cut to one character less than that has, and the client is run with a last -x of
-- 18446744073709551615.
pub client_own_duration :
    (rest arg : List ℕ) (early late : List (List ℕ)) (n : ℕ) (d : Driver) (vars : Variables)
    → d.preceding_server ≡ some n
    → IsFree b'v' (tokens rest [])
    → tokens rest [] ≡ early ++ (option b'x' ∷ arg ∷ late)
    → IsFree b'x' early
    → (p : Proc) × (parse_config_file false false true true true (client_line rest) d
        ≡ (pos 0, record d { client_procs = d.client_procs ++ (p ∷ []) }))
      × ((make_argv vars p).argv
          ≡ some (
              client_path
              ∷ (early
                  ++ (option b'x'
                      ∷ take (length arg - 1) (print_lu vars.duration_ms)
                      ∷ (late
                          ++ (option b'v'
                              ∷ overwritten (print_d (vars.proc_id n)) (print_lu int_max)
                              ∷ option b'x'
                              ∷ print_lu ulong_max
                              ∷ []))))))
client_own_duration rest arg early late n d vars before free_v same free_x =
    let last =
      option b'v'
      ∷ overwritten (print_d (vars.proc_id n)) (print_lu int_max)
      ∷ option b'x'
      ∷ print_lu ulong_max
      ∷ [] in
    (
      client_proc rest n,
      parse_client rest n d before,
      client_argv rest n vars free_v
          ∙ ap (λ ts. some (adjust b'x' (print_lu vars.duration_ms) (client_path ∷ ts)))
              (ap (λ ts. ts ++ last) same ∙ append_assoc early (option b'x' ∷ arg ∷ late) last)
          ∙ ap some (
              adjust-IsFree b'x' (print_lu vars.duration_ms) arg (client_path ∷ early)
                (late ++ last) (refl, free_x)),
    )
