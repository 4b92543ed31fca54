-- ===== src/Wire/KeyValuePairs/Length.antt =====
-- `byte_length` is the number of bytes that `to_bytes` writes; it stands in front of extension headers.
use quiche_moq.Common.{
  Bool-cases, List, [], arith, inl, inr, leb, leb→le, length, sym, ℕ, ◌∙◌, ◌∷◌, ◌≡◌, ◌≤◌,
}
use quiche_moq.Octets.{Octets}
use quiche_moq.Octets.Fields.{IsVarint}
use quiche_moq.Octets.Growth.{emit-Grows, seq-Grows, Grows, codes-length}
use quiche_moq.Wire.Version.{Version, draft_15}
use quiche_moq.Wire.KeyValuePair.{
  KeyValuePair, KeyValuePairValue, varint, bytes, put_value, value_length, sub_u64, KvpCtx,
}
use quiche_moq.Wire.KeyValuePair
use quiche_moq.Wire.KeyValuePair.RoundTrip.{IsEncodable, IsValue}
use quiche_moq.Wire.KeyValuePairs.{
  KeyValuePairs, ordered, context, length_from, byte_length, write_from, to_bytes,
}
use quiche_moq.Wire.KeyValuePairs.RoundTrip.{
  AreEncodable, IsOrdered, ordered-AreEncodable, ordered-IsOrdered,
}
use quiche_moq.Wire.KeyValuePairs.RoundTrip

module _ ⦃o : Octets⦄ where
  varint-Grows : (v : ℕ) → IsVarint v → Grows (o.put_varint v) (o.varint_len v)
  varint-Grows v h w w' e =
      rw (← o.length-varint v h) (emit-Grows (o.varint v) w w' (sym (o.put_varint_lem v w h) ∙ e))

  bytes-Grows : (bs : List ℕ) → Grows (o.put_bytes bs) (length bs)
  bytes-Grows bs w w' e = emit-Grows bs w w' (sym (o.put_bytes_lem bs w) ∙ e)

  value-Grows :
      (ty : ℕ) (value : KeyValuePairValue)
      → IsValue ty value
      → Grows (put_value value) (value_length value)
  unfolding put_value value_length
  value-Grows ty (varint v) (e, h) = varint-Grows v h
  value-Grows ty (bytes b) (e, h) = seq-Grows _ _ _ _ (varint-Grows (length b) h) (bytes-Grows b)

  pub pair-Grows :
      (ctx : KvpCtx) (p : KeyValuePair)
      → IsEncodable p
      → (draft_15 ≤ ctx.version → ctx.previous_key ≤ p.ty)
      → Grows (KeyValuePair.to_bytes ctx p) (KeyValuePair.byte_length ctx p)
  unfolding KeyValuePair.to_bytes KeyValuePair.byte_length
  pair-Grows ctx p v le = elim (Bool-cases (leb draft_15 ctx.version)) [
    | inl e ↦
        let below = le (leb→le _ _ e) in
        let fits = v.type_fits in
        rw e (
          seq-Grows _ _ _ _ (varint-Grows (sub_u64 p.ty ctx.previous_key) (omega arith))
            (value-Grows p.ty p.value v.value_fits))
    | inr e ↦
        rw e (
          seq-Grows _ _ _ _ (varint-Grows p.ty v.type_fits) (value-Grows p.ty p.value v.value_fits))
  ]

  pub byte_length_positive :
      (ctx : KvpCtx) (p : KeyValuePair)
      → IsEncodable p
      → (draft_15 ≤ ctx.version → ctx.previous_key ≤ p.ty)
      → 1 ≤ KeyValuePair.byte_length ctx p
  unfolding KeyValuePair.byte_length
  byte_length_positive ctx p v le = elim (Bool-cases (leb draft_15 ctx.version)) [
    | inl e ↦
        let below = le (leb→le _ _ e) in
        let fits = v.type_fits in
        rw e (omega (arith, o.varint_len_bounds (sub_u64 p.ty ctx.previous_key) (omega arith)))
    | inr e ↦ rw e (omega (arith, o.varint_len_bounds p.ty v.type_fits))
  ]

module _ ⦃o : Octets⦄ (version : Version) where
  pairs-Grows :
      (prev_key : ℕ) (ps : KeyValuePairs)
      → AreEncodable ps
      → IsOrdered version prev_key ps
      → Grows (write_from version prev_key ps) (length_from version prev_key ps)
  unfolding write_from length_from
  pairs-Grows prev_key [] v s = λ w w' e. ground arith
  pairs-Grows prev_key (p ∷ ps) (v, vs) s =
      seq-Grows _ _ _ _ (pair-Grows (context version prev_key) p v (λ h. (s h).0))
        (pairs-Grows p.ty ps vs (λ h. (s h).1))

  -- For pairs that can be encoded, a to_bytes that succeeds adds as many bytes as byte_length says,
  -- in every version.
  pub to_bytes-Grows :
      (ps : KeyValuePairs) → AreEncodable ps → Grows (to_bytes version ps) (byte_length version ps)
  unfolding to_bytes byte_length
  to_bytes-Grows ps v =
      pairs-Grows 0 (ordered version ps) (ordered-AreEncodable version ps v)
        (ordered-IsOrdered version ps)

  pub length-codes :
      (ps : KeyValuePairs) (v : AreEncodable ps)
      → length (RoundTrip.key_value_pairs_codes version ps v).bytes ≡ byte_length version ps
  length-codes ps v =
      codes-length _ (to_bytes-Grows ps v) (RoundTrip.key_value_pairs_codes version ps v)
