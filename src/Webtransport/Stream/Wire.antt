-- ===== src/Webtransport/Stream/Wire.antt =====
-- What a stream has sent is the id of its session, once, and then the payload that was accepted.
use quiche_moq.Common.{
  ==_iff, Bool, Bool-cases, List, [], ap, append-nil, append_assoc, arith, false, if◌then◌else◌,
  inl, inr, leb, length, length-zeros, ltb, refl, some, subst, sym, take, take-all, true, zeros, ℕ,
  ◌++◌, ◌<◌, ◌==◌, ◌^◌, ◌∙◌, ◌≡◌, ◌≤◌,
}
use quiche_moq.Common.Outcome.{Outcome, ok, err, panicked}
use quiche_moq.Octets.{M, Octets, Result, Writer, bind, emit}
use quiche_moq.Octets
use quiche_moq.Webtransport.{Error}
use quiche_moq.Webtransport.Quic.{IsQuic, Quic, QuicError}
use quiche_moq.Webtransport.Stream.{
  Did, Stream, after_id, after_send, id_bytes, max_varint_len, send, send_id, send_payload,
  with_capacity,
}

pub id_bytes_lem :
    {S : Type 0} ⦃o : Octets⦄ (quic : Quic S) (id : ℕ)
    → id < 2 ^ 62
    → id_bytes quic (some id) ≡ Octets.ok (o.varint id)
unfolding id_bytes emit
id_bytes_lem ⦃o = o⦄ quic id h =
    let room : leb (length (o.varint id)) (length (zeros max_varint_len)) ≡ true =
      ground
        (arith, o.length-varint id h, (o.varint_len_bounds id h).1, length-zeros max_varint_len) in
    ap (λ r. bind r (λ ((u, w) : Unit {0} × Writer). Octets.ok w.written))
      (o.put_varint_lem id (record { written = []; ahead = zeros max_varint_len }) h)
    ∙ rw room refl

-- The bytes of a stream whose payload so far is `p`, where the id was sent or not.
abbrev pub Bytes : List ℕ → Bool → List ℕ → List ℕ → Type 0
Bytes id true p bytes = bytes ≡ id ++ p
Bytes id false p bytes = (bytes ≡ []) × (p ≡ [])

module _ {S : Type 0} ⦃o : Octets⦄ (sent : ℕ → S → List ℕ) where
  abbrev pub OnWire : ℕ → List ℕ → Stream → S → Type 0
  OnWire id p t s =
      (t.session_id ≡ some id)
      × (id < 2 ^ 62)
      × Bytes (o.varint id) t.sent_session_id p (sent t.stream_id s)

  -- The outcomes of a send of `buf` behind the payload `p`.
  abbrev pub Sent : ℕ → List ℕ → List ℕ → Did S ℕ → Type 0
  Sent id p buf (t, s, ok n) = (n ≤ length buf) × OnWire id (p ++ take n buf) t s
  Sent id p buf (t, s, err e) = (e ≡ Error.done) × OnWire id p t s
  Sent id p buf (t, s, panicked) = Unit {0}

  module _ (quic : Quic S) (q : IsQuic quic sent) where
    payload_Sent :
        (id : ℕ) (p buf : List ℕ) (fin : Bool) (t : Stream) (s : S)
        → t.sent_session_id ≡ true
        → OnWire id p t s
        → Sent id p buf (send_payload quic buf fin t s)
    unfolding send_payload after_send
    payload_Sent id p buf fin t s e (i, l, w) =
        cases (quic.stream_send t.stream_id buf fin s).1 refl
      where
        s' : S
        s' = (quic.stream_send t.stream_id buf fin s).0

        before : sent t.stream_id s ≡ o.varint id ++ p
        before = subst (λ b. Bytes (o.varint id) b p (sent t.stream_id s)) e w

        on_wire : (p' : List ℕ) → sent t.stream_id s' ≡ o.varint id ++ p' → OnWire id p' t s'
        on_wire p' f = (i, l, subst (λ b. Bytes (o.varint id) b p' (sent t.stream_id s')) (sym e) f)

        cases :
            (r : Outcome QuicError ℕ)
            → (quic.stream_send t.stream_id buf fin s).1 ≡ r
            → Sent id p buf (after_send t (s', r))
        cases (ok n) f =
            let (fits, more) = q.takes t.stream_id buf fin s n f in
            (
              fits,
              on_wire (p ++ take n buf) (
                  more
                  ∙ ap (λ b. b ++ take n buf) before
                  ∙ append_assoc (o.varint id) p (take n buf)),
            )
        cases (err QuicError.done) f =
            (refl, on_wire p (q.refuses t.stream_id buf fin s QuicError.done f ∙ before))
        cases (err QuicError.other) f = tt
        cases (err (QuicError.invalid_stream_state j)) f = tt
        cases (err (QuicError.stream_reset j)) f = tt
        cases panicked f = tt

    id_Sent :
        (id : ℕ) (p buf : List ℕ) (fin : Bool) (t : Stream) (s : S)
        → t.sent_session_id ≡ false
        → OnWire id p t s
        → Sent id p buf (
            after_id quic
              (o.varint id)
              buf
              fin
              t
              (quic.stream_send t.stream_id (o.varint id) false s))
    unfolding after_id
    id_Sent id p buf fin t s e (i, l, w) =
        cases (quic.stream_send t.stream_id (o.varint id) false s).1 refl
      where
        s' : S
        s' = (quic.stream_send t.stream_id (o.varint id) false s).0

        before : (sent t.stream_id s ≡ []) × (p ≡ [])
        before = subst (λ b. Bytes (o.varint id) b p (sent t.stream_id s)) e w

        cases :
            (r : Outcome QuicError ℕ)
            → (quic.stream_send t.stream_id (o.varint id) false s).1 ≡ r
            → Sent id p buf (after_id quic (o.varint id) buf fin t (s', r))
        cases (ok n) f = elim (Bool-cases (length (o.varint id) == n)) [
          | inl z ↦
              let whole : length (o.varint id) ≡ n = (==_iff _ n).0 z in
              let (fits, more) = q.takes t.stream_id (o.varint id) false s n f in
              let after : sent t.stream_id s' ≡ o.varint id ++ p =
                more
                ∙ ap (λ b. b ++ take n (o.varint id)) before.0
                ∙ ap (λ n. take n (o.varint id)) (sym whole)
                ∙ take-all (o.varint id)
                ∙ sym (ap (λ p. o.varint id ++ p) before.1 ∙ append-nil (o.varint id)) in
              rw z (
                payload_Sent id p buf fin (record t { sent_session_id = true }) s' refl
                  (i, l, after))
          | inr z ↦ rw z tt
        ]
        cases (err j) f = tt
        cases panicked f = tt

    capacity_Sent :
        (id : ℕ) (p buf : List ℕ) (fin : Bool) (t : Stream) (s : S) (r : Outcome QuicError ℕ)
        → t.sent_session_id ≡ false
        → OnWire id p t s
        → Sent id p buf (with_capacity quic (o.varint id) buf fin t s r)
    unfolding with_capacity
    capacity_Sent id p buf fin t s (ok room) e w =
        elim (Bool-cases (ltb room (length (o.varint id)))) [
          | inl z ↦ rw z (refl, w)
          | inr z ↦ rw z (id_Sent id p buf fin t s e w)
        ]
    capacity_Sent id p buf fin t s (err j) e w = tt
    capacity_Sent id p buf fin t s panicked e w = tt

    -- Over a QUIC connection that appends to a stream the front of what it is given, as much as it
    -- reports, and nothing on an error: if a stream of a session with an id below 2^62 has sent
    -- nothing, or the id of the session and then a payload, then after send it has so again, with
    -- the first n bytes of the buffer behind the payload if send returns n, which is at most the
    -- length of the buffer, and with the same payload if it returns an error, which is done; so the
    -- id is sent once and in front.
    pub send_Sent :
        (id : ℕ) (p buf : List ℕ) (fin : Bool) (t : Stream) (s : S)
        → OnWire id p t s
        → Sent id p buf (send quic buf fin t s)
    unfolding send send_id
    send_Sent id p buf fin t s w = cases t.sent_session_id refl
      where
        cases :
            (b : Bool)
            → t.sent_session_id ≡ b
            → Sent id p buf (
                if b
                then send_payload quic buf fin t s
                else send_id quic (id_bytes quic t.session_id) buf fin t s)
        cases true e = payload_Sent id p buf fin t s e w
        cases false e =
            let known : id_bytes quic t.session_id ≡ Octets.ok (o.varint id) =
              ap (id_bytes quic) w.0 ∙ id_bytes_lem quic id w.1 in
            subst (λ r. Sent id p buf (send_id quic r buf fin t s)) (sym known)
              (capacity_Sent id p buf fin t s (quic.stream_capacity t.stream_id s) e w)
