-- ===== src/Bwi.antt =====
-- bwi-client_server: a client that asks a server for work, which may ask a subserver.
pub mod Server
pub mod ServerOptions
pub mod Answers
pub mod Signals
pub mod Toggled
pub mod Driver
pub mod Client
mod Examples
mod ServerExamples
use realtime_tests.Prelude.{
  ℕ, ◌-◌, Bool, true, false, Option, none, some, List, [], ◌∷◌, ◌++◌, ◌==◌, if◌then◌else◌, length,
  take, replicate,
}

-- What `send` and `recv` return: a result, or -1 and an error number.
pub data Io (A : Type 0) : Type 0 where
  done : A → Io A
  error : ℕ → Io A

-- What `send_recv` stores: the bytes sent, the bytes received, which are none and without an
-- error if the sending failed, and the buffer.
pub record Exchange : Type 0 where
  pub byte_sent : Io ℕ
  pub received : Io (List ℕ)
  pub buffer : List ℕ

-- A buffer of `buf_len` zeros with some bytes at its front.
abbrev pub cleared_with : ℕ → List ℕ → List ℕ
cleared_with buf_len bytes = bytes ++ replicate (buf_len - length bytes) 0

-- The socket over the state of the world. `recv` is told the size of the buffer, and returns
-- no more than that.
module _ {W : Type 0} (send : List ℕ → W → Io ℕ × W) (recv : ℕ → W → Io (List ℕ) × W) where
  abbrev pub after_recv : ℕ → Io ℕ → Io (List ℕ) → Exchange
  after_recv buf_len sent (done bytes) = record {
    byte_sent = sent;
    received = done bytes;
    buffer = cleared_with buf_len bytes;
  }
  after_recv buf_len sent (error e) = record {
    byte_sent = sent;
    received = error e;
    buffer = replicate buf_len 0;
  }

  abbrev pub after_send : List ℕ → ℕ → Io ℕ → W → Exchange × W
  after_send buffer buf_len (error e) w =
      (record { byte_sent = error e; received = done []; buffer = buffer }, w)
  after_send buffer buf_len (done n) w =
      let (received, w') = recv buf_len w in (after_recv buf_len (done n) received, w')

  -- `send_recv` of server.c and client.c: `buffer` is what stands at the place of the answer.
  unfoldable pub send_recv : List ℕ → List ℕ → ℕ → W → Exchange × W
  send_recv data_bytes buffer buf_len w =
      let (sent, w1) = send data_bytes w in after_send buffer buf_len sent w1
