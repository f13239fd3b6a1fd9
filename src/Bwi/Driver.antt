-- ===== src/Bwi/Driver.antt =====
-- bwi-client_server/main.c: the programs that a configuration names, and their arguments.
pub mod Argv
pub mod Tokens
pub mod Forced
pub mod Linked
pub mod Config
pub mod Life
pub mod Arguments
pub mod Slept
pub mod Collected
mod Examples
mod LifeExamples
mod SleptExamples
use realtime_tests.Prelude.{
  ℕ, zero, suc, ◌+◌, ◌-◌, Bool, true, false, not, ◌&&◌, ◌||◌, Option, none, some, List, [], ◌∷◌,
  ◌++◌, ◌==◌, leb, if◌then◌else◌, length, take, get_elem?, map,
}
use realtime_tests.Prelude.Int.{ℤ, pos, negsuc}
use realtime_tests.Time.Text.{print_lu}
use realtime_tests.Cpu.{equal}
use realtime_tests.Sched.Fifo.{is_ok}

-- The characters of `delimiter`.
abbrev pub is_delimiter : ℕ → Bool
is_delimiter c = c == b' ' || c == 9

abbrev pub flushed : List ℕ → List (List ℕ) → List (List ℕ)
flushed [] rest = rest
flushed (c ∷ cs) rest = (c ∷ cs) ∷ rest

-- What `strtok` cuts off in turn, from a token that has started.
unfoldable pub tokens : List ℕ → List ℕ → List (List ℕ)
tokens [] start = flushed start []
tokens (c ∷ cs) start =
    let next = tokens cs [] in
    let longer = tokens cs (start ++ (c ∷ [])) in
    if is_delimiter c then flushed start next else longer

-- The first token, and what stands behind the byte that flushed it.
unfoldable pub first_token : List ℕ → List ℕ → List ℕ × List ℕ
first_token [] start = (start, [])
first_token (c ∷ cs) start =
    let skipped = first_token cs [] in
    let longer = first_token cs (start ++ (c ∷ [])) in
    if not (is_delimiter c) then longer else if length start == 0 then skipped else (start, cs)

-- `program_ids`
pub data Program : Type 0 where
  server client cpu_hog cpu_hog_cbs hrt_cbs server_hog server_client : Program

abbrev pub program_ids : List Program
program_ids = server ∷ client ∷ cpu_hog ∷ cpu_hog_cbs ∷ hrt_cbs ∷ server_hog ∷ server_client ∷ []

abbrev pub name_of : Program → List ℕ
name_of server = b's' ∷ b'e' ∷ b'r' ∷ b'v' ∷ b'e' ∷ b'r' ∷ []
name_of client = b'c' ∷ b'l' ∷ b'i' ∷ b'e' ∷ b'n' ∷ b't' ∷ []
name_of cpu_hog = b'c' ∷ b'p' ∷ b'u' ∷ b'_' ∷ b'h' ∷ b'o' ∷ b'g' ∷ []
name_of cpu_hog_cbs =
    b'c' ∷ b'p' ∷ b'u' ∷ b'_' ∷ b'h' ∷ b'o' ∷ b'g' ∷ b'_' ∷ b'c' ∷ b'b' ∷ b's' ∷ []
name_of hrt_cbs = b'h' ∷ b'r' ∷ b't' ∷ b'_' ∷ b'c' ∷ b'b' ∷ b's' ∷ []
name_of server_hog = b's' ∷ b'e' ∷ b'r' ∷ b'v' ∷ b'e' ∷ b'r' ∷ b'_' ∷ b'h' ∷ b'o' ∷ b'g' ∷ []
name_of server_client =
    b's' ∷ b'e' ∷ b'r' ∷ b'v' ∷ b'e' ∷ b'r' ∷ b'_' ∷ b'c' ∷ b'l' ∷ b'i' ∷ b'e' ∷ b'n' ∷ b't' ∷ []

abbrev to_lower : ℕ → ℕ
to_lower c = if leb b'A' c && leb c b'Z' then c + 32 else c

-- The search of the loop over `program_ids`, by `strcasecmp`.
unfoldable pub find_program : List Program → List ℕ → Option Program
find_program [] token = none
find_program (p ∷ ps) token =
    let rest = find_program ps token in
    if equal (map to_lower token) (name_of p) then some p else rest

-- A process. A pointer to the PID of a server is the place of that server among the servers, and
-- one to a variable of the command line tells whether it is there. `args` are cut into `argv`.
pub record Proc : Type 0 where
  pub args : List ℕ
  pub argv : Option (List (List ℕ))
  pub server_pid : Option ℕ
  pub subserver_pid : Option ℕ
  pub duration_ms : Bool
  pub ftrace_start : Bool
  pub ftrace_stop : Bool

abbrev pub proc_new : Proc
proc_new = record {
  args = [];
  argv = none;
  server_pid = none;
  subserver_pid = none;
  duration_ms = false;
  ftrace_start = false;
  ftrace_stop = false;
}

-- The lists of processes, and `preceding_server`.
pub record Driver : Type 0 where
  pub server_procs : List Proc
  pub client_procs : List Proc
  pub cpu_hog_procs : List Proc
  pub cpu_hog_cbs_procs : List Proc
  pub hrt_cbs_procs : List Proc
  pub server_hog_procs : List Proc
  pub preceding_server : Option ℕ

abbrev pub int_max : ℕ
int_max = 2147483647

abbrev pub ulong_max : ℕ
ulong_max = 18446744073709551615

-- A placeholder, as in " -v 2147483647".
abbrev pub placeholder : ℕ → ℕ → List ℕ
placeholder c n = b' ' ∷ b'-' ∷ c ∷ b' ' ∷ print_lu n

abbrev pub when : Bool → List ℕ → List ℕ
when true text = text
when false text = []

abbrev pub is_there : {A : Type 0} → Option A → Bool
is_there none = false
is_there (some a) = true

-- The placeholders behind the arguments of a program: with a preceding server, and with ftrace.
abbrev pub placeholders : Bool → Bool → Program → List ℕ
placeholders serves traces client =
    when serves (placeholder b'v' int_max)
    ++ (placeholder b'x' ulong_max
        ++ when traces (placeholder b'r' int_max ++ placeholder b'l' int_max))
placeholders serves traces hrt_cbs = placeholder b'x' ulong_max
placeholders serves traces server_client = placeholder b'v' int_max
placeholders serves traces server = []
placeholders serves traces cpu_hog = []
placeholders serves traces cpu_hog_cbs = []
placeholders serves traces server_hog = []

abbrev pub run_as : Program → Program
run_as server_client = server
run_as server = server
run_as client = client
run_as cpu_hog = cpu_hog
run_as cpu_hog_cbs = cpu_hog_cbs
run_as hrt_cbs = hrt_cbs
run_as server_hog = server_hog

abbrev pub args_of : Bool → Bool → Program → List ℕ → List ℕ
args_of serves traces p remaining_line =
    b'.' ∷ b'/' ∷ (name_of (run_as p) ++ (b' ' ∷ (remaining_line ++ placeholders serves traces p)))

-- `procs_add` on the list of a program.
abbrev pub add_to : Program → Proc → Driver → Driver
add_to server p d = record d {
  server_procs = d.server_procs ++ (p ∷ []);
  preceding_server = some (length d.server_procs);
}
add_to server_client p d = record d {
  server_procs = d.server_procs ++ (p ∷ []);
  preceding_server = some (length d.server_procs);
}
add_to client p d = record d { client_procs = d.client_procs ++ (p ∷ []) }
add_to cpu_hog p d = record d { cpu_hog_procs = d.cpu_hog_procs ++ (p ∷ []) }
add_to cpu_hog_cbs p d = record d { cpu_hog_cbs_procs = d.cpu_hog_cbs_procs ++ (p ∷ []) }
add_to hrt_cbs p d = record d { hrt_cbs_procs = d.hrt_cbs_procs ++ (p ∷ []) }
add_to server_hog p d = record d { server_hog_procs = d.server_hog_procs ++ (p ∷ []) }

abbrev pub is_first_server_client : Program → Option ℕ → Bool
is_first_server_client server_client none = true
is_first_server_client _ _ = false

abbrev pub is_comment : List ℕ → Bool
is_comment [] = true
is_comment (c ∷ cs) = c == b'#'

-- `start` and `stop` tell whether ftrace is asked for.
module _ (start stop : Bool) where
  -- The process as it is made for a program, with the arguments that there is memory for.
  abbrev pub proc_of : Program → List ℕ → Option ℕ → Proc
  proc_of client args before = record proc_new {
    args = args;
    server_pid = before;
    duration_ms = true;
    ftrace_start = start;
    ftrace_stop = stop;
  }
  proc_of server_client args before = record proc_new { args = args; subserver_pid = before }
  proc_of hrt_cbs args before = record proc_new { args = args; duration_ms = true }
  proc_of server args before = record proc_new { args = args }
  proc_of cpu_hog args before = record proc_new { args = args }
  proc_of cpu_hog_cbs args before = record proc_new { args = args }
  proc_of server_hog args before = record proc_new { args = args }

  -- The part of `parse_config_file` for a program that is known. Without memory for the arguments
  -- the process stays in its list with none.
  abbrev pub add_program : Bool → Bool → List ℕ → Option Program → Driver → ℤ × Driver
  add_program has_proc has_args remaining_line none d = (negsuc 0, d)
  add_program has_proc has_args remaining_line (some p) d =
      let args = args_of (is_there d.preceding_server) (start && stop) p remaining_line in
      if not has_proc
      then (negsuc 0, d)
      else if is_first_server_client p d.preceding_server
      then (negsuc 0, d)
      else if not has_args
      then (negsuc 0, add_to p (proc_of p [] d.preceding_server) d)
      else (pos 0, add_to p (proc_of p args d.preceding_server) d)

  -- The Booleans tell for what there is memory: the buffer, the process, and its arguments.
  unfoldable pub parse_config_file : Bool → Bool → Bool → List ℕ → Driver → ℤ × Driver
  parse_config_file has_buffer has_proc has_args line d =
      let (token, remaining_line) = first_token line [] in
      let added = add_program has_proc has_args remaining_line (find_program program_ids token) d in
      if not has_buffer then (negsuc 0, d) else if is_comment token then (pos 0, d) else added

  -- What `utility_file_read` calls for a line: whether it is to stop, and the lists. Every call
  -- finds the memory that the Booleans tell.
  unfoldable pub parse_line : Bool → Bool → Bool → List ℕ → Driver → Bool × Driver
  parse_line has_buffer has_proc has_args line d =
      let (rc, d') = parse_config_file has_buffer has_proc has_args line d in (not (is_ok rc), d')

-- The lists before the configuration is read.
abbrev pub no_procs : Driver
no_procs = record {
  server_procs = [];
  client_procs = [];
  cpu_hog_procs = [];
  cpu_hog_cbs_procs = [];
  hrt_cbs_procs = [];
  server_hog_procs = [];
  preceding_server = none;
}
