-- ===== src/Bwi/Driver/Examples.antt =====
-- The driver on concrete configurations.
use realtime_tests.Prelude.{ℕ, ◌≡◌, refl, true, false, some, List, [], ◌∷◌, arith}
use realtime_tests.Prelude.Int.{ℤ, pos, negsuc}
use realtime_tests.Time.Text.{print_lu}
use realtime_tests.File.Lines.{ended, utility_file_read}
use realtime_tests.File.Exact.{always}
use realtime_tests.Cpu.Listed.{file_of}
use realtime_tests.Bwi.Driver.{Driver, Proc, no_procs, parse_config_file, parse_line, tokens}
use realtime_tests.Bwi.Driver.Argv.{Variables, make_argv}
use realtime_tests.Bwi.Driver.Forced.{client_line, client_path, option, client_forced}
use realtime_tests.Bwi.Driver.Linked.{IsLinked}
use realtime_tests.Bwi.Driver.Config.{config_lem}

-- "-q 20", and "-x 60".
abbrev budget : List ℕ
budget = b'-' ∷ b'q' ∷ b' ' ∷ b'2' ∷ b'0' ∷ []

abbrev own_duration : List ℕ
own_duration = b'-' ∷ b'x' ∷ b' ' ∷ b'6' ∷ b'0' ∷ []

-- One server, which runs as process 4321, for ten seconds.
abbrev one_server : Driver
one_server = record no_procs { preceding_server = some 0 }

abbrev variables : Variables
variables = record {
  proc_id = λ n. pos 4321;
  duration_ms = 10000;
  ftrace_start = negsuc 0;
  ftrace_stop = negsuc 0;
}

client_forced_example :
    (p : Proc) × (parse_config_file false false true true true (client_line budget) one_server
      ≡ (pos 0, record one_server { client_procs = p ∷ [] }))
    × ((make_argv variables p).argv
        ≡ some (
            client_path
            ∷ (b'-' ∷ b'q' ∷ [])
            ∷ (b'2' ∷ b'0' ∷ [])
            ∷ option b'v'
            ∷ print_lu 4321
            ∷ option b'x'
            ∷ print_lu 10000
            ∷ []))
unfolding tokens
client_forced_example =
    client_forced budget 0 4321 one_server variables refl (refl, (refl, tt)) (refl, (refl, tt)) refl
      (omega arith) (omega arith)

config_lem_example :
    (rc : ℤ) × (d : Driver) × (utility_file_read
        (parse_line false false true true true)
        always
        (file_of (client_line budget))
        1024
        no_procs
      ≡ ended rc d)
    × IsLinked d
config_lem_example =
    config_lem false false true true true (file_of (client_line budget))
      (record { whole = refl; more = refl; good = refl }) (omega arith)
