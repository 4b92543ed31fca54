-- ===== src/Webtransport/Connection/Sends.antt =====
-- A connection keeps the contract of `stream_send`: no more bytes are taken than are given.
use quiche_moq.Common.{
  Bool, Bool-cases, List, Option, false, if◌then◌else◌, inl, inr, length, ltb, none, some, true, ℕ,
  ◌==◌, ◌≡◌, ◌≤◌,
}
use quiche_moq.Common.Map.{get, insert}
use quiche_moq.Common.Outcome.{Outcome, ok, err, panicked}
use quiche_moq.Octets.{Octets, Result}
use quiche_moq.Octets
use quiche_moq.Webtransport.{IsSender}
use quiche_moq.Webtransport.Quic.{IsQuic, Quic, QuicError}
use quiche_moq.Webtransport.Stream.{
  Stream, after_id, after_send, id_bytes, send, send_id, send_payload, with_capacity,
}
use quiche_moq.Webtransport.Stream
use quiche_moq.Webtransport.Connection.{Did}
use quiche_moq.Webtransport.Connection.Poll.{transport}
use quiche_moq.Webtransport.Connection.Streams.{stream_send, with_stream}

abbrev Within : {S : Type 0} → List ℕ → Stream.Did S ℕ → Type 0
Within b r = (n : ℕ) → r.2 ≡ ok n → n ≤ length b

after_send-Within :
    {S : Type 0} (b : List ℕ) (t : Stream) (x : S × Outcome QuicError ℕ)
    → ((n : ℕ) → x.1 ≡ ok n → n ≤ length b)
    → Within b (after_send t x)
unfolding after_send
after_send-Within b t (s, ok m) h n e = h n (cc e)
after_send-Within b t (s, err QuicError.done) h n e = absurd (cc e)
after_send-Within b t (s, err QuicError.other) h n e = absurd (cc e)
after_send-Within b t (s, err (QuicError.invalid_stream_state i)) h n e = absurd (cc e)
after_send-Within b t (s, err (QuicError.stream_reset i)) h n e = absurd (cc e)
after_send-Within b t (s, panicked) h n e = absurd (cc e)

module _ {S : Type 0} (quic : Quic S) (sent : ℕ → S → List ℕ) (w : IsQuic quic sent) (b : List ℕ)
    (fin : Bool) where
  payload-Within : (t : Stream) (s : S) → Within b (send_payload quic b fin t s)
  unfolding send_payload
  payload-Within t s =
      after_send-Within b t (quic.stream_send t.stream_id b fin s)
        (λ n e. (w.takes t.stream_id b fin s n e).0)

  after_id-Within :
      (id : List ℕ) (t : Stream) (x : S × Outcome QuicError ℕ)
      → Within b (after_id quic id b fin t x)
  unfolding after_id
  after_id-Within id t (s, ok m) = elim (Bool-cases (length id == m)) [
    | inl z ↦ rw z (payload-Within (record t { sent_session_id = true }) s)
    | inr z ↦ rw z (λ n e. absurd (cc e))
  ]
  after_id-Within id t (s, err x) = λ n e. absurd (cc e)
  after_id-Within id t (s, panicked) = λ n e. absurd (cc e)

  with_capacity-Within :
      (id : List ℕ) (t : Stream) (s : S) (x : Outcome QuicError ℕ)
      → Within b (with_capacity quic id b fin t s x)
  unfolding with_capacity
  with_capacity-Within id t s (ok room) = elim (Bool-cases (ltb room (length id))) [
    | inl z ↦ rw z (λ n e. absurd (cc e))
    | inr z ↦ rw z (after_id-Within id t (quic.stream_send t.stream_id id false s))
  ]
  with_capacity-Within id t s (err x) = λ n e. absurd (cc e)
  with_capacity-Within id t s panicked = λ n e. absurd (cc e)

  module _ ⦃o : Octets⦄ where
    send_id-Within :
        (id : Result (List ℕ)) (t : Stream) (s : S) → Within b (send_id quic id b fin t s)
    unfolding send_id
    send_id-Within (Octets.ok id) t s =
        with_capacity-Within id t s (quic.stream_capacity t.stream_id s)
    send_id-Within (Octets.err x) t s = λ n e. absurd (cc e)
    send_id-Within Octets.panic t s = λ n e. absurd (cc e)

    send-Within : (t : Stream) (s : S) → Within b (send quic b fin t s)
    unfolding send
    send-Within t s = cases t.sent_session_id
      where
        cases :
            (x : Bool)
            → Within b (
                if x
                then send_payload quic b fin t s
                else send_id quic (id_bytes quic t.session_id) b fin t s)
        cases true = payload-Within t s
        cases false = send_id-Within (id_bytes quic t.session_id) t s

module _ {S : Type 0} (quic : Quic S) (sent : ℕ → S → List ℕ) (w : IsQuic quic sent)
    ⦃o : Octets⦄ where
  pub transport-IsSender : (msg : List ℕ) → IsSender (transport quic msg)
  unfolding transport stream_send with_stream
  transport-IsSender msg id b fin (c, s) = cases (get c.streams id)
    where
      cases :
          (x : Option Stream) (n : ℕ)
          → (elim x as (λ _. Did S ℕ) [
            | none ↦ ((c, s), panicked)
            | some t ↦
                let r = send quic b fin t s in
                ((record c { streams = insert id r.0 c.streams }, r.1), r.2)
          ]).1
            ≡ ok n
          → n ≤ length b
      cases none n e = absurd (cc e)
      cases (some t) n e = send-Within quic sent w b fin t s n e
