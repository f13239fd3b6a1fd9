-- ===== src/Bwi/Client.antt =====
-- bwi-client_server/client.c: the program of the client's task, job by job.
pub mod Traced
pub mod Limits
pub mod Options
pub mod Accepted
mod Examples
mod OptionExamples
use realtime_tests.Prelude.{
  ℕ, zero, suc, ◌+◌, Bool, true, false, not, ◌&&◌, ◌||◌, Option, none, some, List, [], ◌∷◌, ◌++◌,
  ◌==◌, if◌then◌else◌, length, replicate, ltb, int_half,
}
use realtime_tests.Prelude.Int.{ℤ, pos, negsuc}
use realtime_tests.Time.{Timespec, UtilityTime, zeroed, plus, minus, utility_time_gt}
use realtime_tests.Bwi.{Io, done, error, Exchange, send_recv}

-- The members of `client_prog_prms` that stay as they are. `with_bwi` is whether `server_pid` is
-- not -1.
pub record ClientProgPrms : Type 0 where
  pub request : List ℕ
  pub with_bwi : Bool
  pub stopping_iteration : ℤ
  pub ftrace_iteration : ℤ
  pub ftrace_iteration_limit : ℤ
  pub ftrace_response_time : Timespec
  pub period : Timespec

-- The members that the program changes, what is written to `ftrace_file`, and whether SIGTERM
-- was sent to the main thread. The counter `nth_iteration` is an `int`, which starts at 0 and only
-- grows; `client_prog` has no result where it would not fit.
pub record Client : Type 0 where
  pub nth_iteration : ℕ
  pub next_release : Timespec
  pub ftrace_response_time_hit : ℕ
  pub ftrace_file : List ℕ
  pub terminated : Bool

abbrev pub is_at : ℕ → ℤ → Bool
is_at n (pos m) = n == m
is_at n (negsuc m) = false

abbrev pub as_time : Timespec → UtilityTime
as_time t = record zeroed { t = t }

abbrev pub no_error : {A : Type 0} → ℕ → Io A → Bool
no_error eintr (done a) = true
no_error eintr (error e) = e == eintr

-- The part that stops the tracing behind a response time too large.
abbrev pub check_response_time : ClientProgPrms → Client → Timespec → Client
check_response_time prms c t_now =
    let t = minus (as_time t_now) (as_time c.next_release) in
    let next = plus c.next_release prms.period in
    if utility_time_gt (as_time t) (as_time prms.ftrace_response_time)
    then record c {
      ftrace_file = c.ftrace_file ++ (b'0' ∷ []);
      ftrace_response_time_hit = c.nth_iteration;
      next_release = next;
    }
    else record c { next_release = next }

-- The counter and what is written before the exchange and behind it.
abbrev pub before_exchange : ClientProgPrms → Client → Client
before_exchange prms c = record c {
  nth_iteration = c.nth_iteration + 1;
  ftrace_file =
      c.ftrace_file
      ++ (if is_at (c.nth_iteration + 1) prms.ftrace_iteration then b'1' ∷ [] else []);
}

abbrev pub behind_exchange : ClientProgPrms → Client → Client
behind_exchange prms c = record c {
  ftrace_file =
      c.ftrace_file
      ++ (if is_at c.nth_iteration prms.ftrace_iteration_limit then b'0' ∷ [] else []);
}

abbrev pub finished : ClientProgPrms → Client → Client
finished prms c = record c {
  terminated = c.terminated || is_at c.nth_iteration prms.stopping_iteration;
}

module _ {W : Type 0} (eintr : ℕ) (send : List ℕ → W → Io ℕ × W) (recv : ℕ → W → Io (List ℕ) × W)
    (bwi revoke : W → Bool × W) (prologue epilogue : W → W) (clock : W → Timespec × W) where
  -- The exchange with the server, with the inheritance of bandwidth around it: whether all of it
  -- went well, or was interrupted at most. The buffer of the answer is as long as the request.
  unfoldable pub exchange : ClientProgPrms → W → Bool × W
  exchange prms w =
      let len = length prms.request in
      let (inherits, w1) = (if prms.with_bwi then bwi w else (true, w)) in
      let (x, w2) = send_recv send recv prms.request (replicate len 0) len w1 in
      let (revokes, w3) = (if prms.with_bwi then revoke w2 else (true, w2)) in
      (inherits && (revokes && (no_error eintr x.byte_sent && no_error eintr x.received)), w3)

  -- `client_prog`; `none` is a fatal error, or the undefined overflow of `nth_iteration`.
  unfoldable pub client_prog : ClientProgPrms → Client → W → Option (Client × W)
  client_prog prms c w =
      let (well, w1) = exchange prms (prologue w) in
      let c1 = behind_exchange prms (before_exchange prms c) in
      let (t_now, w2) = clock (epilogue w1) in
      let tracing = is_at 0 prms.ftrace_iteration && c.ftrace_response_time_hit == 0 in
      if not well || not (ltb (c.nth_iteration + 1) int_half)
      then none
      else if tracing
      then some (finished prms (check_response_time prms c1 t_now), w2)
      else some (finished prms c1, epilogue w1)

  -- The task of the client, up to that many jobs in turn. Once SIGTERM was sent, the main thread
  -- stops the task; `stops k` is whether it has done so before the job behind the
  -- first `k`. A SIGTERM from elsewhere only makes the number of jobs smaller.
  unfoldable pub run : ClientProgPrms → (stops : ℕ → Bool) → ℕ → Client → W → Option (Client × W)
  run prms stops zero c w = some (c, w)
  run prms stops (suc n) c w = elim (run prms stops n c w) [
    | none ↦ none
    | some (c', w') ↦
        let job = client_prog prms c' w' in
        if c'.terminated && stops c'.nth_iteration then some (c', w') else job
  ]
