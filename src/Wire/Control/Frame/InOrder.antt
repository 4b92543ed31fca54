-- ===== src/Wire/Control/Frame/InOrder.antt =====
-- Writing a body and filling its length in behind it, against writing the length in front.
use quiche_moq.Common.{
  Bool-cases, List, ap, append_assoc, arith, drop, drop-drop, if◌then◌else◌, inl, inr, leb, leb→le,
  leb→lt, length, length-append, length-drop, length-take, sym, take, ℕ, ◌%◌, ◌++◌, ◌+◌, ◌-◌, ◌<◌,
  ◌^◌, ◌∙◌, ◌≡◌, ◌≤◌,
}
use quiche_moq.Octets.{M, Octets, Writer, buffer_too_short, emit, err, ok, panics, ◌>>=◌, ◌>>◌}
use quiche_moq.Octets.Fields.{IsVarint}
use quiche_moq.Octets.Growth.{advance, emit_room, emit_short, then_ok, then_err}
use quiche_moq.Octets.Cursor.{off, put_u16_at, put_varint_with_len_at, write_at_lem}
use quiche_moq.Wire.Version.{
  IsDraft, Version, between, between-false, between-true, draft_07, draft_10, draft_11, draft_16,
}
use quiche_moq.Wire.Control.Frame.{set_control_message_length, encode_control_message}

-- The length field has two bytes; as a varint it holds less than 2^14.
abbrev pub message_limit : ℕ
message_limit = 2 ^ 14

module _ ⦃o : Octets⦄ (version : Version) where
  -- The length written in its place at once.
  abbrev pub put_length : ℕ → M Writer (Unit {0})
  put_length n =
      if between draft_07 draft_10 version
      then o.put_varint_with_len n 2
      else if between draft_11 draft_16 version
      then o.put_u16 n
      else panics

  -- The bytes of the length, whichever they are, come to stand in the two bytes left free.
  set_length :
      (pre junk lb body ahead : List ℕ)
      → IsDraft version
      → length body < message_limit
      → length junk ≡ 2
      → length lb ≡ 2
      → ((w : Writer) → put_length (length body) w ≡ emit lb w)
      → set_control_message_length version
          (length pre)
          (record { written = pre ++ (junk ++ body); ahead = ahead })
        ≡ ok (tt, record { written = pre ++ (lb ++ body); ahead = ahead })
  unfolding set_control_message_length ◌>>=◌ off put_u16_at put_varint_with_len_at
  set_length pre junk lb body ahead d h j l puts = elim (Bool-cases (leb version draft_10)) [
    | inl e ↦
        let b = between-true draft_07 draft_10 version d.0 (leb→le _ _ e) in
        rw (b, counted)
          (write_at_lem (o.put_varint_with_len (length body) 2) pre junk lb body ahead
            (λ w. rw b at (puts w)) (j ∙ sym l))
    | inr e ↦
        let b = between-false draft_07 draft_10 version (leb→lt _ _ e) in
        let b' = between-true draft_11 draft_16 version (omega (arith, leb→lt _ _ e)) d.1 in
        rw (b, b', counted, small)
          (write_at_lem (o.put_u16 (length body)) pre junk lb body ahead
            (λ w. rw (b, b') at (puts w)) (j ∙ sym l))
  ]
    where
      counted : length (pre ++ (junk ++ body)) - length pre - 2 ≡ length body
      counted = omega (arith, j, length-append pre (junk ++ body), length-append junk body)

      small : length body % 2 ^ 16 ≡ length body
      small = omega arith

  -- Up to the body: the type, and two bytes passed over.
  encode_header :
      (ty : ℕ) (f : M Writer (Unit {0})) (w : Writer)
      → IsVarint ty
      → length (o.varint ty) + 2 ≤ length w.ahead
      → encode_control_message version ty f w
        ≡ (f >> set_control_message_length version (length (w.written ++ o.varint ty)))
            (advance (take 2 (drop (length (o.varint ty)) w.ahead)) (advance (o.varint ty) w))
  unfolding encode_control_message off ◌>>=◌
  encode_header ty f w t h =
      let rest = drop (length (o.varint ty)) w.ahead in
      let room : 2 ≤ length rest = omega (arith, length-drop (length (o.varint ty)) w.ahead) in
      let junk : length (take 2 rest) ≡ 2 = length-take 2 rest room in
      then_ok _ _ w _ (o.put_varint_lem ty w t ∙ emit_room (o.varint ty) w (omega arith))
      ∙ then_ok _ _ _ _ (
          o.skip_lem 2 (advance (o.varint ty) w) room
          ∙ emit_room (take 2 rest) (advance (o.varint ty) w) (omega arith))

  encode_no_header :
      (ty : ℕ) (f : M Writer (Unit {0})) (w : Writer)
      → IsVarint ty
      → length w.ahead < length (o.varint ty) + 2
      → encode_control_message version ty f w ≡ err buffer_too_short
  unfolding encode_control_message off ◌>>=◌
  encode_no_header ty f w t h = elim (Bool-cases (leb (length (o.varint ty)) (length w.ahead))) [
    | inl e ↦
        then_ok _ _ w _ (o.put_varint_lem ty w t ∙ emit_room (o.varint ty) w (leb→le _ _ e))
        ∙ then_err _ _ _ _ (
            o.skip_cut 2 (advance (o.varint ty) w)
              (omega (arith, length-drop (length (o.varint ty)) w.ahead)))
    | inr e ↦ then_err _ _ w _ (o.put_varint_lem ty w t ∙ emit_short (o.varint ty) w (leb→lt _ _ e))
  ]

  -- A body that does not fit.
  pub encode_no_body :
      (ty : ℕ) (f : M Writer (Unit {0})) (body : List ℕ) (w : Writer)
      → IsVarint ty
      → ((w : Writer) → f w ≡ emit body w)
      → length w.ahead < length (o.varint ty) + 2 + length body
      → encode_control_message version ty f w ≡ err buffer_too_short
  encode_no_body ty f body w t pf h =
      elim (Bool-cases (leb (length (o.varint ty) + 2) (length w.ahead))) [
        | inr e ↦ encode_no_header ty f w t (leb→lt _ _ e)
        | inl e ↦
            let rest = drop (length (o.varint ty)) w.ahead in
            let room = length-drop (length (o.varint ty)) w.ahead in
            encode_header ty f w t (leb→le _ _ e)
            ∙ then_err _ _ _ _ (
                pf _
                ∙ emit_short body _ (
                    omega (
                      arith,
                      leb→le _ _ e,
                      room,
                      length-take 2 rest (omega (arith, room, leb→le _ _ e)),
                      length-drop (length (take 2 rest)) rest,
                    )))
      ]

  -- Filling the length in behind the body gives what writing it in front would have given.
  pub encode_in_order :
      (ty : ℕ) (f : M Writer (Unit {0})) (body lb : List ℕ) (w : Writer)
      → IsDraft version
      → IsVarint ty
      → length body < message_limit
      → length lb ≡ 2
      → ((w : Writer) → put_length (length body) w ≡ emit lb w)
      → ((w : Writer) → f w ≡ emit body w)
      → encode_control_message version ty f w ≡ emit ((o.varint ty ++ lb) ++ body) w
  encode_in_order ty f body lb w d t h l pl pf =
      elim (Bool-cases (leb (length (o.varint ty) + 2 + length body) (length w.ahead))) [
        | inr e ↦
            encode_no_body ty f body w t pf (leb→lt _ _ e)
            ∙ sym (emit_short ((o.varint ty ++ lb) ++ body) w (omega (arith, total, leb→lt _ _ e)))
        | inl e ↦
            let rest = drop (length (o.varint ty)) w.ahead in
            let room = length-drop (length (o.varint ty)) w.ahead in
            let junk = length-take 2 rest (omega (arith, room, leb→le _ _ e)) in
            encode_header ty f w t (omega (arith, leb→le _ _ e))
            ∙ then_ok _ _ _ _ (
                pf _
                ∙ emit_room body _ (
                    omega
                      (arith, leb→le _ _ e, room, junk, length-drop (length (take 2 rest)) rest)))
            ∙ place (w.written ++ o.varint ty) (take 2 rest)
                (drop (length body) (drop (length (take 2 rest)) rest)) junk
            ∙ (λ i. ok (tt, record { written = text i; ahead = left junk i }))
            ∙ sym (emit_room ((o.varint ty ++ lb) ++ body) w (omega (arith, total, leb→le _ _ e)))
      ]
    where
      total : length ((o.varint ty ++ lb) ++ body) ≡ length (o.varint ty) + 2 + length body
      total =
          omega (arith, l, length-append (o.varint ty ++ lb) body, length-append (o.varint ty) lb)

      place :
          (pre junk ahead : List ℕ)
          → length junk ≡ 2
          → set_control_message_length version
              (length pre)
              (record { written = (pre ++ junk) ++ body; ahead = ahead })
            ≡ ok (tt, record { written = pre ++ (lb ++ body); ahead = ahead })
      place pre junk ahead j =
          rw (append_assoc pre junk body) (set_length pre junk lb body ahead d h j l pl)

      text : (w.written ++ o.varint ty) ++ (lb ++ body) ≡ w.written ++ ((o.varint ty ++ lb) ++ body)
      text =
          append_assoc w.written (o.varint ty) (lb ++ body)
          ∙ ap (λ t. w.written ++ t) (sym (append_assoc (o.varint ty) lb body))

      left :
          length (take 2 (drop (length (o.varint ty)) w.ahead)) ≡ 2
          → drop (length body) (
              drop
                (length (take 2 (drop (length (o.varint ty)) w.ahead)))
                (drop (length (o.varint ty)) w.ahead))
            ≡ drop (length ((o.varint ty ++ lb) ++ body)) w.ahead
      left j = rw (
        j,
        total,
        drop-drop (length (o.varint ty)) 2 w.ahead,
        drop-drop (length (o.varint ty) + 2) (length body) w.ahead,
      )
