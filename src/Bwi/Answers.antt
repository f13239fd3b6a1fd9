-- ===== src/Bwi/Answers.antt =====
-- bwi-client_server/server.c: what a client is answered.
use realtime_tests.Prelude.{
  ℕ, zero, suc, ◌-◌, ◌≤◌, ◌≡◌, refl, ap, ◌∙◌, Bool, false, Option, none, some, List, ◌∷◌, ◌==◌,
  if◌then◌else◌, length, take, take-append, replicate, arith,
}
use realtime_tests.Bwi.{Io, done, error, cleared_with, after_recv, after_send, send_recv}
use realtime_tests.Bwi.Server.{sizeof_buffer, Forwarded, on_exchange, subserver_send_recv, serve}

take-cleared_with : (n : ℕ) (bytes : List ℕ) → take (length bytes) (cleared_with n bytes) ≡ bytes
take-cleared_with n bytes = take-append bytes (replicate (n - length bytes) 0) (length bytes) refl

take-replicate : (k n z : ℕ) → k ≤ n → take k (replicate n z) ≡ replicate k z
take-replicate zero n z h = refl
take-replicate (suc k) zero z h = absurd (omega arith)
take-replicate (suc k) (suc n) z h = ap (λ l. z ∷ l) (take-replicate k n z (omega arith))

module _ {W : Type 0} (eintr : ℕ) (send : List ℕ → W → Io ℕ × W) (recv : ℕ → W → Io (List ℕ) × W)
    (bwi : W → Bool × W) (revoke : W → W) (busy : W → W) where
  -- The world when the request is forwarded, and when the answer is awaited.
  abbrev pub forwarding : Bool → W → W
  forwarding has_pid w = (if has_pid then bwi (busy w) else (false, busy w)).1

  abbrev pub sent_of : Bool → List ℕ → W → Io ℕ
  sent_of has_pid request w = (send request (forwarding has_pid w)).0

  abbrev pub answer_of : Bool → List ℕ → W → Io (List ℕ)
  answer_of has_pid request w = (recv sizeof_buffer (send request (forwarding has_pid w)).1).0

  -- What the client gets back, by what becomes of the request at the subserver.
  abbrev pub reply : List ℕ → Io ℕ → Io (List ℕ) → Option (List ℕ)
  reply request (error e) answer = if e == eintr then none else some request
  reply request (done n) (done bytes) = some bytes
  reply request (done n) (error e) =
      if e == eintr then none else some (replicate (length request) 0)

  abbrev outcome : Forwarded → Option (List ℕ)
  outcome f = if f.ok then some (take f.packet_size f.buffer) else none

  outcome_first :
      (f : Forwarded) (w : W)
      → (let r : Option (List ℕ) × W =
            (if f.ok then (some (take f.packet_size f.buffer), w) else (none, w)) in
          r.0 ≡ outcome f)
  outcome_first f w = ground arith

  exchange_lem :
      (request : List ℕ) (sent : Io ℕ) (w : W)
      → length request ≤ sizeof_buffer
      → outcome (
          on_exchange eintr send recv bwi revoke
            (length request)
            (after_send send recv (cleared_with sizeof_buffer request) sizeof_buffer sent w).0)
        ≡ reply request sent (recv sizeof_buffer w).0
  exchange_lem request (error e) w small = ground (arith, take-cleared_with sizeof_buffer request)
  exchange_lem request (done n) w small = received_lem request n (recv sizeof_buffer w).0 small
    where
      received_lem :
          (request : List ℕ) (n : ℕ) (answer : Io (List ℕ))
          → length request ≤ sizeof_buffer
          → outcome (
              on_exchange eintr send recv bwi revoke
                (length request)
                (after_recv send recv sizeof_buffer (done n) answer))
            ≡ reply request (done n) answer
      received_lem request n (done bytes) small = ap some (take-cleared_with sizeof_buffer bytes)
      received_lem request n (error e) small =
          ground (arith, take-replicate (length request) sizeof_buffer 0 small)

  -- A request of at most 65535 bytes is answered with the request itself where there is no
  -- subserver. Where there is one, the client gets exactly the bytes that the subserver answered;
  -- nothing if a signal interrupts the exchange; but on another failure to send it gets its own
  -- request, and on another failure to receive as many zeros, as if the subserver had answered
  -- that.
  pub serve_lem :
      (request : List ℕ) (w : W)
      → length request ≤ sizeof_buffer
      → ((serve eintr send recv bwi revoke busy none request w).0 ≡ some request)
        × ((has_pid : Bool)
            → (serve eintr send recv bwi revoke busy (some has_pid) request w).0
              ≡ reply request (sent_of has_pid request w) (answer_of has_pid request w))
  unfolding serve subserver_send_recv send_recv
  serve_lem request w small = (
    ap some (take-cleared_with sizeof_buffer request),
    λ has_pid.
        let w1 = forwarding has_pid w in
        outcome_first _ _
        ∙ ap
            (λ d. outcome (
              on_exchange eintr send recv bwi revoke (length request)
                (send_recv send recv d (cleared_with sizeof_buffer request) sizeof_buffer w1).0))
            (take-cleared_with sizeof_buffer request)
        ∙ exchange_lem request (send request w1).0 (send request w1).1 small,
  )
