-- ===== src/Webtransport.antt =====
-- quiche_webtransport/src: WebTransport sessions and streams over the crate quiche.
pub mod Connection
pub mod Quic
pub mod Stream
pub mod Tests
use quiche_moq.Common.{Bool, List, length, ℕ, ◌≡◌, ◌≤◌}
use quiche_moq.Common.Outcome.{Outcome, ok}
use quiche_moq.ShortBuf.{Callback}
use quiche_moq.ShortBuf.Queue.{Answers}

-- error.rs
pub data Error : Type 0 where
  done missing_session_id no_stream_state insufficient_capacity fin : Error
  stream_reset invalid_stream_state : ℕ → Error

-- What quiche_moq calls of a `Connection`, over the state of the WebTransport, HTTP/3 and QUIC
-- connections.
pub record Transport (S : Type 0) : Type 0 where
  pub readable_streams : (session_id : ℕ) → S → List ℕ
  pub open_stream : (session_id : ℕ) → (bidi : Bool) → S → S × Outcome Error ℕ
  pub recv_stream : (stream_id session_id : ℕ) → Callback S Error
  pub stream_send : (stream_id : ℕ) → List ℕ → (fin : Bool) → S → S × Outcome Error ℕ
  pub stream_send_if_capacity :
      (stream_id : ℕ) → List ℕ → (fin : Bool) → S → S × Outcome Error (Unit {0})
  pub close_session : (session_id error_code : ℕ) → S → S × Outcome Error (Unit {0})
  -- `quic.stream_shutdown` for writing
  pub stream_shutdown : (stream_id error_code : ℕ) → S → S × Outcome (Unit {0}) (Unit {0})

-- No more bytes are taken than are given.
abbrev pub IsSender : {S : Type 0} → Transport S → Type 0
IsSender {S} wt =
    (id : ℕ) (b : List ℕ) (fin : Bool) (s : S) (n : ℕ)
    → (wt.stream_send id b fin s).1 ≡ ok n
    → n ≤ length b

-- The contract of `recv_stream` in the states `P`, which it keeps.
pub record IsReceiver {S : Type 0} (wt : Transport S) (P : S → Type 0) (left : S → ℕ) : Type 0 where
  pub answers :
      (id session_id : ℕ) (s : S) (b : List ℕ)
      → P s
      → Answers left s b (wt.recv_stream id session_id s b)
  pub stays :
      (id session_id : ℕ) (s : S) (b : List ℕ) → P s → P (wt.recv_stream id session_id s b).0
