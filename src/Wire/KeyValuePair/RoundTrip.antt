-- ===== src/Wire/KeyValuePair/RoundTrip.antt =====
use quiche_moq.Common.{List, arith, if◌then◌else◌, leb, leb→le, length, ℕ, ◌%◌, ◌≡◌, ◌≤◌}
use quiche_moq.Octets.{Octets, ok, pure, ◌>>=◌}
use quiche_moq.Octets.Codec.{Codes, branch, last, last_as, seq}
use quiche_moq.Octets.Fields.{IsVarint, bytes_codes, varint_codes}
use quiche_moq.Wire.Version.{draft_15}
use quiche_moq.Wire.KeyValuePair.{
  KeyValuePair, KeyValuePairValue, KvpCtx, add_u64, bytes, from_bytes, get_value, new_bytes,
  new_varint, put_value, sub_u64, to_bytes, varint,
}

-- Even types carry a number, odd ones a byte string.
abbrev pub IsValue : ℕ → KeyValuePairValue → Type 0
IsValue ty (varint v) = (ty % 2 ≡ 0) × IsVarint v
IsValue ty (bytes b) = (ty % 2 ≡ 1) × IsVarint (length b)

pub record IsEncodable (kvp : KeyValuePair) : Type 0 where
  pub type_fits : IsVarint kvp.ty
  pub value_fits : IsValue kvp.ty kvp.value

-- What a constructor accepts has the parity of its type.
pub new_varint-IsValue :
    (ty v : ℕ) {kvp : KeyValuePair}
    → IsVarint v
    → new_varint ty v ≡ ok kvp
    → IsValue kvp.ty kvp.value
unfolding new_varint
new_varint-IsValue ty v h e = ground arith

pub new_bytes-IsValue :
    (ty : ℕ) (b : List ℕ) {kvp : KeyValuePair}
    → IsVarint (length b)
    → new_bytes ty b ≡ ok kvp
    → IsValue kvp.ty kvp.value
unfolding new_bytes
new_bytes-IsValue ty b h e = ground arith

module _ ⦃o : Octets⦄ where
  value_codes :
      (ty : ℕ) (value : KeyValuePairValue)
      → IsValue ty value
      → Codes (put_value value) (get_value ty) value
  unfolding put_value get_value
  value_codes ty (varint v) (e, h) = rw e (last varint (varint_codes v h))
  value_codes ty (bytes b) (e, h) = rw e (seq _ (varint_codes _ h) (last bytes (bytes_codes b)))

  type_codes :
      (ctx : KvpCtx) (ty : ℕ)
      → IsVarint ty
      → (draft_15 ≤ ctx.version → ctx.previous_key ≤ ty)
      → Codes
          (if leb draft_15 ctx.version
            then o.put_varint (sub_u64 ty ctx.previous_key)
            else o.put_varint ty)
          (if leb draft_15 ctx.version
            then (o.get_varint >>= λ d. pure (add_u64 ctx.previous_key d))
            else o.get_varint)
          ty
  type_codes ctx ty h le =
      branch _
        (λ e.
          let below = le (leb→le _ _ e) in
          last_as (add_u64 ctx.previous_key) (omega arith) (varint_codes _ (omega arith)))
        (λ _. varint_codes ty h)

  -- A pair is read back in the context that it was written in; from draft 15 on its type must not
  -- be below the type before.
  pub codes :
      (ctx : KvpCtx) (kvp : KeyValuePair)
      → IsEncodable kvp
      → (draft_15 ≤ ctx.version → ctx.previous_key ≤ kvp.ty)
      → Codes (to_bytes ctx kvp) (from_bytes ctx) kvp
  unfolding to_bytes from_bytes
  codes ctx kvp v le =
      seq _ (type_codes ctx kvp.ty v.type_fits le)
        (last (λ x. record { ty = kvp.ty; value = x }) (value_codes kvp.ty kvp.value v.value_fits))
