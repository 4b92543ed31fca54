-- ===== src/Webtransport/Stream.antt =====
-- quiche_webtransport/src/stream.rs: a stream of a session, which begins with the id of the session.
pub mod SessionId
pub mod Wire
use quiche_moq.Common.{
  Bool, List, Option, [], false, if◌then◌else◌, length, ltb, none, some, suc, take, true, zero,
  zeros, ℕ, ◌%◌, ◌+◌, ◌-◌, ◌==◌, ◌^◌, ◌∷◌,
}
use quiche_moq.Common.Outcome.{Outcome, ok, err, panicked}
use quiche_moq.Octets.{Octets, Reader, Result, Writer, bind}
use quiche_moq.Octets
use quiche_moq.ShortBuf.{ShortBuf, buffer, chain_read2, consume, fill, is_empty, len}
use quiche_moq.ShortBuf
use quiche_moq.Webtransport.{Error}
use quiche_moq.Webtransport.Quic.{Quic, QuicError}

abbrev pub max_varint_len : ℕ
max_varint_len = 8

pub record Stream : Type 0 where
  pub stream_id : ℕ
  pub session_id : Option ℕ
  pub buf : ShortBuf
  pub readable : Bool
  pub quic_finished : Bool
  pub finished : Bool
  pub sent_session_id : Bool

unfoldable pub new_remote : ℕ → Stream
new_remote stream_id = record {
  stream_id = stream_id;
  session_id = none;
  buf = ShortBuf.new (zeros max_varint_len);
  readable = false;
  quic_finished = false;
  finished = false;
  sent_session_id = true;
}

unfoldable pub with_session : ℕ → ℕ → Stream
with_session stream_id session_id = record {
  stream_id = stream_id;
  session_id = some session_id;
  buf = ShortBuf.new (zeros max_varint_len);
  readable = false;
  quic_finished = false;
  finished = false;
  sent_session_id = false;
}

-- The stream, the connections and the result.
abbrev pub Did : Type 0 → Type 0 → Type 0
Did S A = Stream × S × Outcome Error A

module _ {S : Type 0} where
  -- The arms of the `match` in `fill_buf`.
  unfoldable pub after_fill :
      Stream → ShortBuf × S × Outcome QuicError (Unit {0}) → Did S (Unit {0})
  after_fill t (buf, s, ok u) = (record t { buf = buf }, s, ok tt)
  after_fill t (buf, s, err QuicError.done) = (record t { buf = buf }, s, err Error.done)
  after_fill t (buf, s, err _) = (record t { buf = buf }, s, panicked)
  after_fill t (buf, s, panicked) = (record t { buf = buf }, s, panicked)

  -- The arms of the `match` in `recv`, behind `quic.stream_finished`.
  unfoldable pub after_recv :
      Bool → Stream → S → List ℕ → Outcome QuicError ℕ → Stream × S × List ℕ × Outcome Error ℕ
  after_recv stream_finished t s b (ok n) =
      (record t { quic_finished = if stream_finished then true else t.quic_finished }, s, b, ok n)
  after_recv stream_finished t s b (err (QuicError.invalid_stream_state i)) =
      if t.quic_finished
      then (record t { finished = true }, s, b, err Error.fin)
      else (t, s, b, err (Error.invalid_stream_state i))
  after_recv stream_finished t s b (err QuicError.done) = (t, s, b, err Error.done)
  after_recv stream_finished t s b (err (QuicError.stream_reset i)) =
      (t, s, b, err (Error.stream_reset i))
  after_recv stream_finished t s b (err QuicError.other) = (t, s, b, panicked)
  after_recv stream_finished t s b panicked = (t, s, b, panicked)

  -- What `send` makes of the answer for the payload.
  unfoldable pub after_send : Stream → S × Outcome QuicError ℕ → Did S ℕ
  after_send t (s, ok n) = (t, s, ok n)
  after_send t (s, err QuicError.done) = (t, s, err Error.done)
  after_send t (s, err _) = (t, s, panicked)
  after_send t (s, panicked) = (t, s, panicked)

  -- `self.send(...)?; Ok(())`
  unfoldable pub no_count : Did S ℕ → Did S (Unit {0})
  no_count (t, s, ok n) = (t, s, ok tt)
  no_count (t, s, err e) = (t, s, err e)
  no_count (t, s, panicked) = (t, s, panicked)

  module _ (quic : Quic S) where
    unfoldable pub fill_buf : Stream → S → Did S (Unit {0})
    unfolding after_fill
    fill_buf t s = after_fill t (fill (quic.stream_recv t.stream_id) t.buf s)

    unfoldable pub again_filled :
        (Stream → S → Option (Did S (Unit {0}))) → Did S (Unit {0}) → Option (Did S (Unit {0}))
    again_filled again (t, s, ok u) = again t s
    again_filled again (t, s, err e) = some (t, s, err e)
    again_filled again (t, s, panicked) = some (t, s, panicked)

    -- `while` the buffer is too short: a fill. `none` where the fuel is used up.
    unfoldable pub fill_while : ℕ → (ShortBuf → Bool) → Stream → S → Option (Did S (Unit {0}))
    unfolding fill_buf again_filled
    fill_while zero short t s = none
    fill_while (suc fuel) short t s =
        let rest = again_filled (fill_while fuel short) (fill_buf t s) in
        if short t.buf then rest else some (t, s, ok tt)

    unfoldable pub recv : List ℕ → Stream → S → Stream × S × List ℕ × Outcome Error ℕ
    unfolding after_recv
    recv b t s = elim t.session_id [
      | none ↦ (t, s, b, err Error.missing_session_id)
      | some id ↦
          let r = chain_read2 (quic.stream_recv t.stream_id) b t.buf s in
          after_recv (quic.stream_finished t.stream_id r.1) (record t { buf = r.0 }) r.1 r.2 r.3
    ]

    unfoldable pub send_payload : List ℕ → Bool → Stream → S → Did S ℕ
    unfolding after_send
    send_payload buf fin t s = after_send t (quic.stream_send t.stream_id buf fin s)

    -- The capacity was asked for, and the id is sent whole or the code panics.
    unfoldable pub after_id : List ℕ → List ℕ → Bool → Stream → S × Outcome QuicError ℕ → Did S ℕ
    unfolding send_payload
    after_id id buf fin t (s, ok sent) =
        if length id == sent
        then send_payload buf fin (record t { sent_session_id = true }) s
        else (t, s, panicked)
    after_id id buf fin t (s, err e) = (t, s, panicked)
    after_id id buf fin t (s, panicked) = (t, s, panicked)

    unfoldable pub with_capacity :
        List ℕ → List ℕ → Bool → Stream → S → Outcome QuicError ℕ → Did S ℕ
    unfolding after_id
    with_capacity id buf fin t s (ok room) =
        if ltb room (length id)
        then (t, s, err Error.done)
        else after_id id buf fin t (quic.stream_send t.stream_id id false s)
    with_capacity id buf fin t s (err e) = (t, s, panicked)
    with_capacity id buf fin t s panicked = (t, s, panicked)

    module _ ⦃o : Octets⦄ where
      -- What `put_varint(...).unwrap()` writes into eight bytes.
      unfoldable pub id_bytes : Option ℕ → Result (List ℕ)
      id_bytes none = Octets.panic
      id_bytes (some id) =
          bind (o.put_varint id (record { written = []; ahead = zeros max_varint_len }))
            (λ (u, w). Octets.ok w.written)

      unfoldable pub send_id : Result (List ℕ) → List ℕ → Bool → Stream → S → Did S ℕ
      unfolding with_capacity
      send_id (Octets.ok id) buf fin t s =
          with_capacity id buf fin t s (quic.stream_capacity t.stream_id s)
      send_id (Octets.err e) buf fin t s = (t, s, panicked)
      send_id Octets.panic buf fin t s = (t, s, panicked)

      unfoldable pub send : List ℕ → Bool → Stream → S → Did S ℕ
      unfolding send_payload send_id id_bytes
      send buf fin t s =
          if t.sent_session_id
          then send_payload buf fin t s
          else send_id (id_bytes t.session_id) buf fin t s

      -- `capacity -= session_id_len`, on 64 bits.
      unfoldable pub less_id : Option ℕ → ℕ → Outcome Error ℕ
      less_id none room = panicked
      less_id (some id) room = ok ((room + 2 ^ 64 - o.varint_len id) % 2 ^ 64)

      unfoldable pub capacity_of : Stream → Outcome QuicError ℕ → Outcome Error ℕ
      unfolding less_id
      capacity_of t (ok room) = if t.sent_session_id then ok room else less_id t.session_id room
      capacity_of t (err e) = panicked
      capacity_of t panicked = panicked

      unfoldable pub capacity : Stream → S → Outcome Error ℕ
      unfolding capacity_of
      capacity t s = capacity_of t (quic.stream_capacity t.stream_id s)

      unfoldable pub send_within : List ℕ → Bool → Stream → S → Outcome Error ℕ → Did S (Unit {0})
      unfolding send no_count
      send_within buf fin t s (ok room) =
          if ltb room (length buf)
          then (t, s, err Error.insufficient_capacity)
          else no_count (send buf fin t s)
      send_within buf fin t s (err e) = (t, s, err e)
      send_within buf fin t s panicked = (t, s, panicked)

      unfoldable pub send_if_capacity : List ℕ → Bool → Stream → S → Did S (Unit {0})
      unfolding send_within capacity
      send_if_capacity buf fin t s = send_within buf fin t s (capacity t s)

      -- The id is in the buffer, `id_len` bytes of it: `get_varint().unwrap()` and `consume`.
      unfoldable pub take_id : ℕ → Stream → S → Did S ℕ
      unfolding consume
      take_id id_len t s = elim (o.get_varint (take id_len (buffer t.buf))) [
        | Octets.ok (id, rest) ↦ elim (consume id_len t.buf) [
          | none ↦ (t, s, panicked)
          | some buf ↦ (record t { buf = buf; session_id = some id }, s, ok id)
        ]
        | Octets.err e ↦ (t, s, panicked)
        | Octets.panic ↦ (t, s, panicked)
      ]

      unfoldable pub after_id_bytes : ℕ → Option (Did S (Unit {0})) → Option (Did S ℕ)
      unfolding take_id
      after_id_bytes id_len none = none
      after_id_bytes id_len (some (t, s, ok u)) = some (take_id id_len t s)
      after_id_bytes id_len (some (t, s, err e)) = some (t, s, err e)
      after_id_bytes id_len (some (t, s, panicked)) = some (t, s, panicked)

      -- `varint_parse_len(self.buf.buffer()[0])`
      unfoldable pub read_rest : ℕ → List ℕ → Stream → S → Option (Did S ℕ)
      unfolding after_id_bytes fill_while
      read_rest fuel [] t s = some (t, s, panicked)
      read_rest fuel (b ∷ bs) t s =
          after_id_bytes (o.varint_parse_len b)
            (fill_while fuel (λ buf. ltb (len buf) (o.varint_parse_len b)) t s)

      unfoldable pub after_first : ℕ → Option (Did S (Unit {0})) → Option (Did S ℕ)
      unfolding read_rest
      after_first fuel none = none
      after_first fuel (some (t, s, ok u)) = read_rest fuel (buffer t.buf) t s
      after_first fuel (some (t, s, err e)) = some (t, s, err e)
      after_first fuel (some (t, s, panicked)) = some (t, s, panicked)

      unfoldable pub read_session_id : ℕ → Stream → S → Option (Did S ℕ)
      unfolding after_first fill_while is_empty
      read_session_id fuel t s = elim t.session_id [
        | none ↦ after_first fuel (fill_while fuel is_empty t s)
        | some v ↦ some (t, s, ok v)
      ]
