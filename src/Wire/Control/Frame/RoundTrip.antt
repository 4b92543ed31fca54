-- ===== src/Wire/Control/Frame/RoundTrip.antt =====
-- The frame round a body: the length that is filled in afterwards is the length of the body.
use quiche_moq.Common.{
  Bool-cases, Cut, List, [], append_assoc, arith, if◌then◌else◌, inl, inr, leb, leb→le, leb→lt,
  length, ltb, ltb→le, ltb→lt, sym, true, ℕ, ◌%◌, ◌++◌, ◌/◌, ◌<◌, ◌∙◌, ◌∷◌, ◌≡◌,
}
use quiche_moq.Octets.{M, Octets, Reader, Writer, buffer_too_short, emit, err, ok, ◌>>=◌, ◌>>◌}
use quiche_moq.Octets.Codec.{Codes, emit-append, last, seq}
use quiche_moq.Octets.Fields.{IsVarint, u16_codes, varint_codes, varint_two_codes}
use quiche_moq.Octets.Growth.{codes-bytes, emit_short}
use quiche_moq.Wire.Version.{
  IsDraft, Version, between-false, between-true, draft_07, draft_10, draft_11, draft_16, ranges,
}
use mathlib.Core.Path.{fun_ext}
use quiche_moq.Wire.Control.Frame.InOrder.{
  put_length, message_limit, encode_no_body, encode_in_order,
}
use quiche_moq.Wire.Control.Frame.{
  ControlMessage, from_bytes, to_bytes, get_length, header_from_bytes, encode_control_message,
}

-- `Codes` for buffers and messages shorter than `limit`, which begin with `front`.
pub record CodesBelow {A : Type 0} (limit : ℕ) (front : List ℕ) (p : M Writer (Unit {0}))
    (g : M Reader A) (a : A) : Type 0 where
  pub bytes : List ℕ
  pub fronts : length bytes < limit → (t : List ℕ) × (bytes ≡ front ++ t)
  pub puts : (w : Writer) → length w.ahead < limit → p w ≡ emit bytes w
  pub gets : length bytes < limit → (r : Reader) → g (bytes ++ r) ≡ ok (a, r)
  pub cuts : length bytes < limit → (r : Reader) → Cut r bytes → g r ≡ err buffer_too_short

module _ ⦃o : Octets⦄ (version : Version) where
  length_codes :
      (n : ℕ)
      → IsDraft version
      → n < message_limit
      → Codes (put_length version n) (get_length version) n
  unfolding get_length
  length_codes n d h =
      ranges draft_07 draft_10 draft_11 draft_16 version d.0 d.1 (omega arith)
        (λ _. varint_two_codes n h) (λ _. u16_codes n)

  header_codes :
      (ty n : ℕ)
      → IsDraft version
      → IsVarint ty
      → n < message_limit
      → Codes
          (o.put_varint ty >> put_length version n)
          (header_from_bytes version)
          (record { ty = ty; len = n })
  unfolding header_from_bytes
  header_codes ty n d t h =
      seq _ (varint_codes ty t) (last (λ x. record { ty = ty; len = x }) (length_codes n d h))

  length_bytes : ℕ → List ℕ
  length_bytes n = if leb version draft_10 then o.varint_with_len n 2 else n / 256 ∷ n % 256 ∷ []

  length-length_bytes : (n : ℕ) → n < message_limit → length (length_bytes n) ≡ 2
  unfolding length_bytes
  length-length_bytes n h = elim (Bool-cases (leb version draft_10)) [
    | inl e ↦ rw e (o.length-varint_two n h)
    | inr e ↦ rw e
  ]

  put_length_bytes :
      (n : ℕ) (w : Writer)
      → IsDraft version
      → n < message_limit
      → put_length version n w ≡ emit (length_bytes n) w
  unfolding length_bytes
  put_length_bytes n w d h = elim (Bool-cases (leb version draft_10)) [
    | inl e ↦
        rw (e, between-true draft_07 draft_10 version d.0 (leb→le _ _ e))
          (o.put_varint_two_lem n w h)
    | inr e ↦
        rw
          (
            e,
            between-false draft_07 draft_10 version (leb→lt _ _ e),
            between-true draft_11 draft_16 version (omega (arith, leb→lt _ _ e)) d.1,
          )
          (o.put_u16_lem n w)
  ]

  in_order :
      (ty : ℕ) (body lb : List ℕ) (f : M Writer (Unit {0})) (w : Writer)
      → IsVarint ty
      → ((w : Writer) → put_length version (length body) w ≡ emit lb w)
      → ((w : Writer) → f w ≡ emit body w)
      → emit ((o.varint ty ++ lb) ++ body) w
        ≡ ((o.put_varint ty >> put_length version (length body)) >> f) w
  unfolding ◌>>◌
  in_order ty body lb f w t pl pf = rw (
    emit-append (o.varint ty ++ lb) body w,
    emit-append (o.varint ty) lb w,
    o.put_varint_lem ty w t,
    fun_ext pl,
    fun_ext pf,
  )

  module _ {A : Type 0} {f : M Writer (Unit {0})} {g : M Reader A} {a : A} where
    -- For a draft from 07 to 16, an id that fits a varint and a body whose writer and reader agree
    -- on bytes: encode_control_message, which skips two bytes for the length, writes the body and
    -- fills the length in afterwards, writes in a buffer with fewer than 2^14 bytes left the same
    -- bytes as id, length and body one behind another, or fails for want of room; the header and
    -- the body are read back from them if they are fewer than 2^14, and each proper prefix is
    -- answered by buffer_too_short.
    pub frame_codes :
        (ty : ℕ)
        → IsDraft version
        → IsVarint ty
        → Codes f g a
        → CodesBelow message_limit
            (o.varint ty)
            (encode_control_message version ty f)
            (header_from_bytes version >>= λ _. g)
            a
    frame_codes ty d t c = elim (Bool-cases (ltb (length c.bytes) message_limit)) [
      | inl e ↦ record {
        bytes = (whole e).bytes;
        fronts = λ h. (length_bytes (length c.bytes) ++ c.bytes, in_front e);
        puts = λ w h.
            encode_in_order version ty f c.bytes (length_bytes (length c.bytes)) w d t
              (ltb→lt _ _ e) (length-length_bytes _ (ltb→lt _ _ e))
              (λ w. put_length_bytes _ w d (ltb→lt _ _ e)) c.puts
            ∙ in_order ty c.bytes (length_bytes (length c.bytes)) f w t
                (λ w. put_length_bytes _ w d (ltb→lt _ _ e)) c.puts
            ∙ (whole e).puts w;
        gets = λ h r. (whole e).gets r;
        cuts = λ h r cut. (whole e).cuts r cut;
      }
      | inr e ↦ record {
        bytes = c.bytes;
        fronts = λ h. absurd (omega (arith, ltb→le _ _ e));
        puts = λ w h.
            encode_no_body version ty f c.bytes w t c.puts (omega (arith, ltb→le _ _ e))
            ∙ sym (emit_short c.bytes w (omega (arith, ltb→le _ _ e)));
        gets = λ h r. absurd (omega (arith, ltb→le _ _ e));
        cuts = λ h r cut. absurd (omega (arith, ltb→le _ _ e));
      }
    ]
      where
        whole :
            ltb (length c.bytes) message_limit ≡ true
            → Codes
                ((o.put_varint ty >> put_length version (length c.bytes)) >> f)
                (header_from_bytes version >>= λ _. g)
                a
        whole e = seq _ (header_codes ty (length c.bytes) d t (ltb→lt _ _ e)) c

        in_front :
            (e : ltb (length c.bytes) message_limit ≡ true)
            → (whole e).bytes ≡ o.varint ty ++ (length_bytes (length c.bytes) ++ c.bytes)
        in_front e =
            codes-bytes (whole e) ((o.varint ty ++ length_bytes (length c.bytes)) ++ c.bytes) (λ w.
              sym (
                in_order ty c.bytes (length_bytes (length c.bytes)) f w t
                  (λ w. put_length_bytes _ w d (ltb→lt _ _ e)) c.puts))
            ∙ append_assoc (o.varint ty) (length_bytes (length c.bytes)) c.bytes

  module _ {A : Type 0} (m : ControlMessage A) (a b : A) where
    -- The same for `to_bytes` and `from_bytes` of a message that `from_body_bytes` reads as `b`.
    pub message_codes :
        (ty : ℕ)
        → m.message_id_for_version version ≡ ok ty
        → IsDraft version
        → IsVarint ty
        → Codes (m.to_body_bytes version a) (m.from_body_bytes version) b
        → CodesBelow message_limit (o.varint ty) (to_bytes m version a) (from_bytes m version) b
    unfolding to_bytes from_bytes ◌>>=◌
    message_codes ty e d t c = rw e (frame_codes ty d t c)
