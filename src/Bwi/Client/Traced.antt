-- ===== src/Bwi/Client/Traced.antt =====
-- bwi-client_server/client.c: what the jobs of the client write to the trace.
use realtime_tests.Prelude.{
  ℕ, zero, suc, ◌+◌, ◌<◌, ◌≤◌, ◌≡◌, ◌==◌, refl, Bool, true, false, ◌&&◌, ◌||◌, some, List, [], ◌∷◌,
  ltb, sym, ap, ◌∙◌, Bool-cases, inl, inr, int_half, if◌then◌else◌, length, replicate, arith,
}
use realtime_tests.Prelude.Int.{ℤ, pos, negsuc}
use realtime_tests.Time.{Timespec}
use realtime_tests.Bwi.{Io, done, error, after_recv, after_send, send_recv}
use realtime_tests.Bwi.Client.{
  ClientProgPrms, Client, is_at, no_error, before_exchange, behind_exchange, finished, exchange,
  client_prog, run,
}

-- The trace after that many jobs.
abbrev pub trace_of : ℕ → ℕ → ℕ → List ℕ
trace_of first last n =
    if ltb n first then [] else if ltb n last then b'1' ∷ [] else b'1' ∷ b'0' ∷ []

-- Whether that many jobs reach the iteration at which the client stops.
abbrev pub is_reached : ℤ → ℕ → Bool
is_reached (pos zero) n = false
is_reached (pos (suc m)) n = ltb m n
is_reached (negsuc m) n = false

reached_zero : (stopping : ℤ) → is_reached stopping 0 ≡ false
reached_zero (pos zero) = refl
reached_zero (pos (suc m)) = ground arith
reached_zero (negsuc m) = refl

next_reached_at :
    (stopping : ℤ) (k n : ℕ) (b : Bool)
    → k ≡ n
    → b ≡ is_reached stopping n
    → b || is_at (k + 1) stopping ≡ is_reached stopping (n + 1)
next_reached_at (pos zero) k n b e h = ground (arith, e, h)
next_reached_at (pos (suc m)) k n b e h = ground (arith, e, h)
next_reached_at (negsuc m) k n b e h = ground (arith, e, h)

ltb-true : (a b : ℕ) → a < b → ltb a b ≡ true
ltb-true a b lt = ground arith

-- What holds before one more number of jobs.
not_before :
    (k m : ℕ) (b : ℕ → Bool) → ltb k m && b k ≡ false → b m ≡ false → ltb k (m + 1) && b k ≡ false
not_before k m b earlier now = grind (arith, earlier, now)

both : {a b : Bool} → a ≡ true → b ≡ true → a && b ≡ true
both h h' = ground (arith, h, h')

tried :
    {W : Type 0} (b : Bool) (x : Bool × W) (w : W)
    → x.0 ≡ true
    → (if b then x else (true, w)).0 ≡ true
tried true x w h = h
tried false x w h = refl

-- What a job leaves, if ftrace is not started with the client.
abbrev pub next : ClientProgPrms → Client → Client
next prms c = finished prms (behind_exchange prms (before_exchange prms c))

module _ {W : Type 0} (eintr : ℕ) (send : List ℕ → W → Io ℕ × W) (recv : ℕ → W → Io (List ℕ) × W)
    (bwi revoke : W → Bool × W) (prologue epilogue : W → W) (clock : W → Timespec × W) where
  -- The socket and the kernel fail by interruption only.
  pub record IsReliable : Type 0 where
    pub sends : (bytes : List ℕ) (w : W) → no_error eintr (send bytes w).0 ≡ true
    pub receives : (n : ℕ) (w : W) → no_error eintr (recv n w).0 ≡ true
    pub inherits : (w : W) → (bwi w).0 ≡ true
    pub revokes : (w : W) → (revoke w).0 ≡ true

  after_recv_lem :
      (n : ℕ) (sent : Io ℕ) (got : Io (List ℕ))
      → no_error eintr sent ≡ true
      → no_error eintr got ≡ true
      → no_error eintr (after_recv send recv n sent got).byte_sent
          && no_error eintr (after_recv send recv n sent got).received
        ≡ true
  after_recv_lem n sent (done bytes) h g = ground arith
  after_recv_lem n sent (error e) h g = ground arith

  after_send_lem :
      (buffer : List ℕ) (n : ℕ) (sent : Io ℕ) (w : W)
      → IsReliable
      → no_error eintr sent ≡ true
      → no_error eintr (after_send send recv buffer n sent w).0.byte_sent
          && no_error eintr (after_send send recv buffer n sent w).0.received
        ≡ true
  after_send_lem buffer n (error e) w r h = ground arith
  after_send_lem buffer n (done m) w r h = after_recv_lem n (done m) (recv n w).0 h (r.receives n w)

  exchange_lem :
      (prms : ClientProgPrms) (w : W)
      → IsReliable
      → (exchange eintr send recv bwi revoke prologue epilogue clock prms w).0 ≡ true
  unfolding exchange send_recv
  exchange_lem prms w r =
      let (inherits, w1) = (if prms.with_bwi then bwi w else (true, w)) in
      let len = length prms.request in
      let well =
        after_send_lem (replicate len 0) len (send prms.request w1).0 (send prms.request w1).1 r
          (r.sends prms.request w1) in
      let x = send_recv send recv prms.request (replicate len 0) len w1 in
      both (tried prms.with_bwi (bwi w) w (r.inherits w))
        (both (tried prms.with_bwi (revoke x.1) x.1 (r.revokes x.1)) well)

  client_prog_lem :
      (prms : ClientProgPrms) (c : Client) (w : W)
      → IsReliable
      → is_at 0 prms.ftrace_iteration ≡ false
      → c.nth_iteration + 1 < int_half
      → (w' : W) × (client_prog eintr send recv bwi revoke prologue epilogue clock prms c w
          ≡ some (next prms c, w'))
  unfolding client_prog
  client_prog_lem prms c w r late fits = (
    epilogue (exchange eintr send recv bwi revoke prologue epilogue clock prms (prologue w)).1,
    rw (exchange_lem prms (prologue w) r, late, ltb-true _ _ fits) refl,
  )

  -- How the trace goes on with one more job.
  next_trace :
      (prms : ClientProgPrms) (first last n : ℕ) (c : Client)
      → prms.ftrace_iteration ≡ pos first
      → prms.ftrace_iteration_limit ≡ pos last
      → 0 < first
      → first ≤ last
      → c.nth_iteration ≡ n
      → c.ftrace_file ≡ trace_of first last n
      → (next prms c).ftrace_file ≡ trace_of first last (n + 1)
  next_trace prms first last n c f l some_job order nth trace = ground arith

  next_reached :
      (prms : ClientProgPrms) (n : ℕ) (c : Client)
      → c.nth_iteration ≡ n
      → c.terminated ≡ is_reached prms.stopping_iteration n
      → (next prms c).terminated ≡ is_reached prms.stopping_iteration (n + 1)
  next_reached prms n c nth before =
      next_reached_at prms.stopping_iteration c.nth_iteration n c.terminated nth before

  -- Where the socket and the kernel fail by interruption only, and ftrace is asked for from the
  -- job `first` on, not 0, to the job `last`, not before it: a client that starts afresh comes to
  -- the end of up to `n` jobs, for an `int` `n`, without a fatal error, and has done all of them
  -- or been stopped, and not behind a smaller number `k` of jobs; it has sent SIGTERM exactly if
  -- it has reached the iteration at which it stops; the trace is that of the jobs that it has
  -- done.
  pub run-trace_of :
      (prms : ClientProgPrms) (stops : ℕ → Bool) (first last n k : ℕ) (c : Client) (w : W)
      → IsReliable
      → prms.ftrace_iteration ≡ pos first
      → prms.ftrace_iteration_limit ≡ pos last
      → 0 < first
      → first ≤ last
      → n < int_half
      → c.nth_iteration ≡ 0
      → c.ftrace_file ≡ []
      → c.terminated ≡ false
      → (c' : Client) × (w' : W) × (run eintr send recv bwi revoke prologue epilogue clock prms
            stops n c w
          ≡ some (c', w'))
        × (c'.nth_iteration ≤ n)
        × (c'.nth_iteration == n || (c'.terminated && stops c'.nth_iteration) ≡ true)
        × (ltb k c'.nth_iteration && (is_reached prms.stopping_iteration k && stops k) ≡ false)
        × (c'.terminated ≡ is_reached prms.stopping_iteration c'.nth_iteration)
        × (c'.ftrace_file ≡ trace_of first last c'.nth_iteration)
  unfolding run
  run-trace_of prms stops first last zero k c w r f l some_job order small fresh empty going = (
    c,
    w,
    refl,
    omega (arith, fresh),
    ground (arith, fresh),
    ground (arith, fresh),
    ground (arith, fresh, going, reached_zero prms.stopping_iteration),
    ground (arith, empty, fresh),
  )
  run-trace_of prms stops first last (suc n) k c w r f l some_job order small fresh empty going =
      let (c', w', e, most, all, earlier, reached, trace) =
        run-trace_of prms stops first last n k c w r f l some_job order (omega (arith, small)) fresh
          empty going in
      elim (Bool-cases (c'.terminated && stops c'.nth_iteration)) [
        | inl stopped ↦ (
          c',
          w',
          rw (e, stopped) refl,
          omega (arith, most),
          ground (arith, stopped),
          earlier,
          reached,
          trace,
        )
        | inr goes_on ↦
            let nth : c'.nth_iteration ≡ n = ground (arith, all, goes_on) in
            let (w'', e') =
              client_prog_lem prms c' w' r (ground (arith, f)) (omega (arith, nth, small)) in
            (
              next prms c',
              w'',
              rw (e, goes_on) e',
              omega (arith, nth),
              ground (arith, nth),
              not_before k c'.nth_iteration (λ m. is_reached prms.stopping_iteration m && stops m)
                  earlier (ap (λ b. b && stops c'.nth_iteration) (sym reached) ∙ goes_on),
              next_reached prms c'.nth_iteration c' refl reached,
              next_trace prms first last c'.nth_iteration c' f l some_job order refl trace,
            )
      ]
