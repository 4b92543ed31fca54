-- ===== src/Webtransport/Connection/Receives.antt =====
-- A connection keeps the contract of `recv_stream`, while the buffers of its streams are valid.
use quiche_moq.Common.{
  Bool, Bool-cases, List, Option, ap, arith, if◌then◌else◌, inl, inr, length, none, refl, some,
  subst, sym, ℕ, ◌∙◌, ◌≡◌,
}
use quiche_moq.Common.Map.{Each, get, insert-Each}
use quiche_moq.Common.Outcome.{Outcome, ok, err, panicked}
use quiche_moq.Octets.{Octets}
use quiche_moq.ShortBuf.{ShortBuf, chain_read2}
use quiche_moq.ShortBuf.Queue.{Answers, IsValid}
use quiche_moq.ShortBuf.Queue.Read.{chain_read2-Answers}
use quiche_moq.Webtransport.{Error, IsReceiver}
use quiche_moq.Webtransport.Quic.{IsDrained, Quic, QuicError}
use quiche_moq.Webtransport.Stream.{Stream, after_recv, recv}
use quiche_moq.Webtransport.Connection.{Connection}
use quiche_moq.Webtransport.Connection.Poll.{transport}
use quiche_moq.Webtransport.Connection.Streams.{is_of, recv_of, recv_stream}

-- The buffers of all streams are valid.
abbrev pub AreValid : Connection → Type 0
AreValid c = Each (λ id t. IsValid t.buf) c.streams

module _ {S : Type 0} where
  -- The answer is passed on with what `recv` makes of it.
  after_recv_facts :
      (f : Bool) (t : Stream) (s : S) (b : List ℕ) (r : Outcome QuicError ℕ)
      → ((after_recv f t s b r).0.buf ≡ t.buf)
        × ((after_recv f t s b r).1 ≡ s)
        × ((after_recv f t s b r).2 ≡ b)
        × ((n : ℕ) → (after_recv f t s b r).3 ≡ ok n → r ≡ ok n)
  unfolding after_recv
  after_recv_facts f t s b (ok m) = (refl, refl, refl, λ n e. cc e)
  after_recv_facts f t s b (err (QuicError.invalid_stream_state i)) =
      elim (Bool-cases t.quic_finished) [
        | inl e ↦ rw e (refl, refl, refl, λ n e. absurd (cc e))
        | inr e ↦ rw e (refl, refl, refl, λ n e. absurd (cc e))
      ]
  after_recv_facts f t s b (err QuicError.done) = (refl, refl, refl, λ n e. absurd (cc e))
  after_recv_facts f t s b (err (QuicError.stream_reset i)) =
      (refl, refl, refl, λ n e. absurd (cc e))
  after_recv_facts f t s b (err QuicError.other) = (refl, refl, refl, λ n e. absurd (cc e))
  after_recv_facts f t s b panicked = (refl, refl, refl, λ n e. absurd (cc e))

-- A stream's buffer stays valid, and its answers are as good as those of the QUIC connection.
abbrev Good : {S : Type 0} → (S → ℕ) → S → List ℕ → Stream × S × List ℕ × Outcome Error ℕ → Type 0
Good left s b (t, s', b', r) = IsValid t.buf × Answers left s b (s', b', r)

module _ {S : Type 0} (quic : Quic S) (left : S → ℕ) (w : IsDrained quic left) where
  recv-Good : (b : List ℕ) (t : Stream) (s : S) → IsValid t.buf → Good left s b (recv quic b t s)
  unfolding recv
  recv-Good b t s v = cases t.session_id
    where
      r : ShortBuf × S × List ℕ × Outcome QuicError ℕ
      r = chain_read2 (quic.stream_recv t.stream_id) b t.buf s

      cases :
          (x : Option ℕ)
          → Good left s b (elim x as (λ _. Stream × S × List ℕ × Outcome Error ℕ) [
            | none ↦ (t, s, b, err Error.missing_session_id)
            | some id ↦
                after_recv
                  (quic.stream_finished t.stream_id r.1)
                  (record t { buf = r.0 })
                  r.1
                  r.2
                  r.3
          ])
      cases none = (v, (refl, omega arith, λ n e. absurd (cc e)))
      cases (some id) =
          let (valid, (keeps, less, some_read)) =
            chain_read2-Answers (quic.stream_recv t.stream_id) left b t.buf s v
              (w t.stream_id s b) in
          let (same, state, slice, passed) =
            after_recv_facts (quic.stream_finished t.stream_id r.1) (record t { buf = r.0 }) r.1 r.2
              r.3 in
          (
            subst IsValid (sym same) valid,
            (
              ap length slice ∙ keeps,
              omega (arith, less, ap left state),
              λ n e.
                  let (fits, room) = some_read n (passed n e) in
                  (fits, λ k. omega (arith, room k, ap left state)),
            ),
          )

  abbrev Kept : List ℕ → Connection × S → (Connection × S) × List ℕ × Outcome Error ℕ → Type 0
  Kept b (c, s) r = AreValid r.0.0 × Answers (λ ((c, s) : Connection × S). left s) (c, s) b r

  recv_stream-Kept :
      (id session_id : ℕ) (c : Connection) (s : S) (b : List ℕ)
      → AreValid c
      → Kept b (c, s) (recv_stream quic id session_id (c, s) b)
  unfolding recv_stream recv_of
  recv_stream-Kept id session_id c s b v = cases (get c.streams id) refl
    where
      cases :
          (x : Option Stream)
          → get c.streams id ≡ x
          → Kept b
              (c, s)
              (elim x as (λ _. (Connection × S) × List ℕ × Outcome Error ℕ) [
                | none ↦ ((c, s), b, err Error.no_stream_state)
                | some t ↦
                    if is_of session_id t.session_id
                    then recv_of quic id b c s (recv quic b t s)
                    else ((c, s), b, panicked)
              ])
      cases none e = (v, (refl, omega arith, λ n e. absurd (cc e)))
      cases (some t) e = elim (Bool-cases (is_of session_id t.session_id)) [
        | inl z ↦
            let (valid, good) = recv-Good b t s (v id t e) in
            rw z (insert-Each _ id (recv quic b t s).0 c.streams v valid, good)
        | inr z ↦ rw z (v, (refl, omega arith, λ n e. absurd (cc e)))
      ]

  module _ ⦃o : Octets⦄ where
    pub transport-IsReceiver :
        (msg : List ℕ)
        → IsReceiver
            (transport quic msg)
            (λ ((c, s) : Connection × S). AreValid c)
            (λ ((c, s) : Connection × S). left s)
    unfolding transport
    transport-IsReceiver msg = record {
      answers = λ id session_id (c, s) b v. (recv_stream-Kept id session_id c s b v).1;
      stays = λ id session_id (c, s) b v. (recv_stream-Kept id session_id c s b v).0;
    }
