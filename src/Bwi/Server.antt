-- ===== src/Bwi/Server.antt =====
-- bwi-client_server/server.c: one request, and its way to the subserver and back.
use realtime_tests.Prelude.{
  ℕ, ◌-◌, ◌^◌, Bool, true, false, not, ◌&&◌, Option, none, some, List, ◌==◌, if◌then◌else◌, length,
  take,
}
use realtime_tests.Bwi.{Io, done, error, Exchange, cleared_with, send_recv}

abbrev pub sizeof_buffer : ℕ
sizeof_buffer = 2 ^ 16 - 1

abbrev pub is_done : {A : Type 0} → Io A → Bool
is_done (done a) = true
is_done (error e) = false

-- What `subserver_send_recv` leaves: whether it returns 0, the buffer and `*packet_size`.
pub record Forwarded : Type 0 where
  pub ok : Bool
  pub buffer : List ℕ
  pub packet_size : ℕ

module _ {W : Type 0} (eintr : ℕ) (send : List ℕ → W → Io ℕ × W) (recv : ℕ → W → Io (List ℕ) × W)
    (bwi : W → Bool × W) (revoke : W → W) where
  abbrev pub on_received : List ℕ → ℕ → Io (List ℕ) → Forwarded
  on_received buffer packet_size (done bytes) = record {
    ok = true;
    buffer = buffer;
    packet_size = length bytes;
  }
  on_received buffer packet_size (error e) = record {
    ok = not (e == eintr);
    buffer = buffer;
    packet_size = packet_size;
  }

  abbrev pub on_exchange : ℕ → Exchange → Forwarded
  on_exchange packet_size x = elim (x.byte_sent) [
    | error e ↦ record { ok = not (e == eintr); buffer = x.buffer; packet_size = packet_size }
    | done n ↦ on_received x.buffer packet_size x.received
  ]

  -- `has_pid` tells whether a PID of the subserver is known; `bwi` is whether its
  -- system call succeeds, and `revoke` takes it back.
  unfoldable pub subserver_send_recv : Bool → List ℕ → ℕ → W → Forwarded × W
  subserver_send_recv has_pid buffer packet_size w =
      let (active, w1) = (if has_pid then bwi w else (false, w)) in
      let (x, w2) = send_recv send recv (take packet_size buffer) buffer sizeof_buffer w1 in
      let w3 = (if has_pid && active then revoke w2 else w2) in (on_exchange packet_size x, w3)

  -- `busy` is the busy loop.
  module _ (busy : W → W) where
    -- What the loop of `main` passes to `sendto` for a request of a client, if anything. `none`
    -- is no subserver; else it tells whether the PID is known.
    unfoldable pub serve : Option Bool → List ℕ → W → Option (List ℕ) × W
    serve none request w =
        (some (take (length request) (cleared_with sizeof_buffer request)), busy w)
    serve (some has_pid) request w =
        let (f, w') =
          subserver_send_recv has_pid (cleared_with sizeof_buffer request) (length request)
            (busy w) in
        if f.ok then (some (take f.packet_size f.buffer), w') else (none, w')

    -- A round of the loop of `main`: no request arrives, one from a sender with another kind of
    -- address, or one to be served.
    unfoldable pub serve_next : Option Bool → Option (Bool × List ℕ) → W → Option (List ℕ) × W
    serve_next subserver none w = (none, w)
    serve_next subserver (some (is_ipv4, request)) w =
        let served = serve subserver request w in if not is_ipv4 then (none, w) else served
