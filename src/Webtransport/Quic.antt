-- ===== src/Webtransport/Quic.antt =====
-- What quiche_webtransport calls of the crate quiche: a QUIC connection and its HTTP/3 connection,
-- over their state.
use quiche_moq.Common.{Bool, List, length, take, ℕ, ◌++◌, ◌≡◌, ◌≤◌}
use quiche_moq.Common.Outcome.{Outcome, ok, err}
use quiche_moq.ShortBuf.{Callback}
use quiche_moq.ShortBuf.Queue.{Answers, IsFill}

-- `quiche::Error` and `h3::Error`, as far as they are told apart.
pub data QuicError : Type 0 where
  done other : QuicError
  invalid_stream_state stream_reset : ℕ → QuicError

pub data H3Error : Type 0 where
  done stream_blocked other : H3Error

pub record Header : Type 0 where
  pub name : List ℕ
  pub value : List ℕ

pub record Quic (S : Type 0) : Type 0 where
  -- `stream_recv(...).map(|v| v.0)`
  pub stream_recv : (stream_id : ℕ) → Callback S QuicError
  pub stream_finished : (stream_id : ℕ) → S → Bool
  pub stream_capacity : (stream_id : ℕ) → S → Outcome QuicError ℕ
  pub stream_send : (stream_id : ℕ) → List ℕ → (fin : Bool) → S → S × Outcome QuicError ℕ
  pub stream_shutdown : (stream_id error_code : ℕ) → S → S × Outcome (Unit {0}) (Unit {0})
  pub open_webtransport_stream : (bidi : Bool) → S → S × Outcome H3Error ℕ
  pub readable_webtransport_streams : S → S × List ℕ
  pub send_request : List Header → (fin : Bool) → S → S × Outcome H3Error ℕ
  pub send_response :
      (stream_id : ℕ) → List Header → (fin : Bool) → S → S × Outcome H3Error (Unit {0})
  pub send_body : (stream_id : ℕ) → List ℕ → (fin : Bool) → S → S × Outcome H3Error ℕ

-- `left` counts the streams whose end is still to be answered, by no bytes: it is answered once. It
-- grows where packets arrive, and not where a stream is read.
abbrev pub IsDrained : {S : Type 0} → Quic S → (S → ℕ) → Type 0
IsDrained {S} quic left = (id : ℕ) (s : S) (b : List ℕ) → Answers left s b (quic.stream_recv id s b)

-- The bytes that a stream has taken so far are a part of the state: a call appends the front of
-- what it is given, as much as it reports, or nothing.
pub record IsQuic {S : Type 0} (quic : Quic S) (sent : ℕ → S → List ℕ) : Type 0 where
  pub receives : (id : ℕ) → IsFill (quic.stream_recv id)
  pub takes :
      (id : ℕ) (b : List ℕ) (fin : Bool) (s : S) (n : ℕ)
      → (quic.stream_send id b fin s).1 ≡ ok n
      → (n ≤ length b) × (sent id (quic.stream_send id b fin s).0 ≡ sent id s ++ take n b)
  pub refuses :
      (id : ℕ) (b : List ℕ) (fin : Bool) (s : S) (e : QuicError)
      → (quic.stream_send id b fin s).1 ≡ err e
      → sent id (quic.stream_send id b fin s).0 ≡ sent id s
