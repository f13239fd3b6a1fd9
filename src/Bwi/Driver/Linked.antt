-- ===== src/Bwi/Driver/Linked.antt =====
-- bwi-client_server/main.c: the links between the processes of a configuration.
use realtime_tests.Prelude.{
  ℕ, suc, ◌+◌, ◌<◌, ◌≤◌, ◌≡◌, Bool, true, false, not, Option, none, some, List, [], ◌∷◌, ◌++◌,
  if◌then◌else◌, length, length-append, All, All-append, arith,
}
use realtime_tests.Prelude.Int.{ℤ}
use realtime_tests.Bwi.Driver.{
  Proc, Driver, Program, add_to, proc_of, add_program, parse_config_file, first_token, find_program,
  program_ids, is_comment, is_first_server_client,
}

-- A place among that many servers.
abbrev pub Reaches : ℕ → Option ℕ → Type 0
Reaches servers none = Unit
Reaches servers (some n) = n < servers

-- The servers from a place on: each one that has a subserver has it before itself.
abbrev pub IsChain : ℕ → List Proc → Type 0
IsChain place [] = Unit
IsChain place (p ∷ ps) = Reaches place p.subserver_pid × IsChain (suc place) ps

-- Every link leads to a server that stands before it.
pub record IsLinked (d : Driver) : Type 0 where
  pub preceding : Reaches (length d.server_procs) d.preceding_server
  pub servers : IsChain 0 d.server_procs
  pub clients : All (λ p. Reaches (length d.server_procs) p.server_pid) d.client_procs

Reaches-widen : (m n : ℕ) (x : Option ℕ) → m ≤ n → Reaches m x → Reaches n x
Reaches-widen m n none h r = tt
Reaches-widen m n (some i) h r = omega arith

clients-widen :
    (m n : ℕ) (ps : List Proc)
    → m ≤ n
    → All (λ p. Reaches m p.server_pid) ps
    → All (λ p. Reaches n p.server_pid) ps
clients-widen m n [] h a = tt
clients-widen m n (p ∷ ps) h a = (Reaches-widen m n p.server_pid h a.0, clients-widen m n ps h a.1)

IsChain-append :
    (place : ℕ) (ps : List Proc) (p : Proc)
    → IsChain place ps
    → Reaches (place + length ps) p.subserver_pid
    → IsChain place (ps ++ (p ∷ []))
IsChain-append place [] p h r =
    (Reaches-widen (place + 0) place p.subserver_pid (omega arith) r, tt)
IsChain-append place (q ∷ qs) p h r = (
  h.0,
  IsChain-append (suc place) qs p h.1 (
      Reaches-widen (place + length (q ∷ qs)) (suc place + length qs) p.subserver_pid (omega arith)
        r),
)

longer : (ps : List Proc) (p : Proc) → length (ps ++ (p ∷ [])) ≡ suc (length ps)
longer ps p = omega (arith, length-append ps (p ∷ []))

if-IsLinked :
    (b : Bool) (x y : ℤ × Driver) → IsLinked x.1 → IsLinked y.1 → IsLinked (if b then x else y).1
if-IsLinked true x y h h' = h
if-IsLinked false x y h h' = h'

module _ (start stop : Bool) where
  -- A server that is added, which may have the preceding one as its subserver.
  server-IsLinked :
      (p : Proc) (d : Driver)
      → Reaches (length d.server_procs) p.subserver_pid
      → IsLinked d
      → IsLinked (record d {
        server_procs = d.server_procs ++ (p ∷ []);
        preceding_server = some (length d.server_procs);
      })
  server-IsLinked p d r h = record {
    preceding = omega (arith, longer d.server_procs p);
    servers = IsChain-append 0 d.server_procs p h.servers (
        Reaches-widen (length d.server_procs) (0 + length d.server_procs) p.subserver_pid
          (omega arith) r);
    clients =
        clients-widen (length d.server_procs) (length (d.server_procs ++ (p ∷ []))) d.client_procs
          (omega (arith, longer d.server_procs p)) h.clients;
  }

  add_to-IsLinked :
      (p : Program) (args : List ℕ) (d : Driver)
      → IsLinked d
      → IsLinked (add_to p (proc_of start stop p args d.preceding_server) d)
  add_to-IsLinked Program.server args d h = server-IsLinked _ d tt h
  add_to-IsLinked Program.server_client args d h = server-IsLinked _ d h.preceding h
  add_to-IsLinked Program.client args d h = record {
    preceding = h.preceding;
    servers = h.servers;
    clients =
        All-append (λ p. Reaches (length d.server_procs) p.server_pid) d.client_procs
          (proc_of start stop Program.client args d.preceding_server ∷ []) h.clients
          (h.preceding, tt);
  }
  add_to-IsLinked Program.cpu_hog args d h = record {
    preceding = h.preceding;
    servers = h.servers;
    clients = h.clients;
  }
  add_to-IsLinked Program.cpu_hog_cbs args d h = record {
    preceding = h.preceding;
    servers = h.servers;
    clients = h.clients;
  }
  add_to-IsLinked Program.hrt_cbs args d h = record {
    preceding = h.preceding;
    servers = h.servers;
    clients = h.clients;
  }
  add_to-IsLinked Program.server_hog args d h = record {
    preceding = h.preceding;
    servers = h.servers;
    clients = h.clients;
  }

  add_program-IsLinked :
      (has_proc has_args : Bool) (remaining_line : List ℕ) (x : Option Program) (d : Driver)
      → IsLinked d
      → IsLinked (add_program start stop has_proc has_args remaining_line x d).1
  add_program-IsLinked has_proc has_args remaining_line none d h = h
  add_program-IsLinked has_proc has_args remaining_line (some p) d h =
      if-IsLinked (not has_proc) _ _ h (
        if-IsLinked (is_first_server_client p d.preceding_server) _ _ h
          (if-IsLinked (not has_args) _ _ (add_to-IsLinked p [] d h) (add_to-IsLinked p _ d h)))

  -- Whatever line is read, and whatever memory there is: if every server that has a subserver has
  -- it among the servers before itself, and every client its server among the servers, this is so
  -- behind the line as well, whether it succeeds or fails.
  pub parse_config_file-IsLinked :
      (has_buffer has_proc has_args : Bool) (line : List ℕ) (d : Driver)
      → IsLinked d
      → IsLinked (parse_config_file start stop has_buffer has_proc has_args line d).1
  unfolding parse_config_file
  parse_config_file-IsLinked has_buffer has_proc has_args line d h =
      let (token, remaining_line) = first_token line [] in
      if-IsLinked (not has_buffer) _ _ h (
        if-IsLinked (is_comment token) _ _ h (
          add_program-IsLinked has_proc has_args remaining_line (find_program program_ids token) d
            h))
