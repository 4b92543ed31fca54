-- ===== src/Wire/Parameter/RoundTrip.antt =====
use quiche_moq.Common.{
  [], arith, if◌then◌else◌, leb, length, le→leb, refl, sym, ℕ, ◌%◌, ◌<◌, ◌∙◌, ◌∷◌, ◌≡◌, ◌≤◌,
}
use quiche_moq.Octets.{Octets, pure, ◌>>=◌}
use quiche_moq.Octets.Codec.{Codes, last, last_as, seq}
use quiche_moq.Octets.Fields.{IsVarint, byte_codes, bytes_codes, varint_codes}
use quiche_moq.Wire.Version.{
  IsDraft, Version, between-true, draft_07, draft_10, draft_11, draft_15, draft_16, ranges,
}
use quiche_moq.Wire.KeyValuePair.{KvpCtx}
use quiche_moq.Wire.KeyValuePair.RoundTrip
use quiche_moq.Wire.Parameter.{
  Parameter, ParameterValue, bytes, varint, from, into, from_bytes, to_bytes, put_value,
}

-- What a reader makes of the value: up to draft 10 a number comes back as its lowest byte.
unfoldable pub received_value : Version → ParameterValue → ParameterValue
received_value version (bytes b) = bytes b
received_value version (varint v) = if leb version draft_10 then bytes (v % 256 ∷ []) else varint v

unfoldable pub received : Version → Parameter → Parameter
unfolding received_value
received version p = record p { value = received_value version p.value }

abbrev pub Fits : ParameterValue → Type 0
Fits (bytes b) = IsVarint (length b)
Fits (varint v) = IsVarint v

pub record IsEncodable (version : Version) (p : Parameter) : Type 0 where
  pub type_fits : IsVarint p.ty
  pub value_fits : Fits p.value
  pub parity : draft_11 ≤ version → RoundTrip.IsEncodable (into p)

pub from-into : (p : Parameter) → from (into p) ≡ p
unfolding from into
from-into p = cases p.ty p.value
  where
    cases :
        (t : ℕ) (v : ParameterValue)
        → from (into (record { ty = t; value = v })) ≡ record { ty = t; value = v }
    cases t (bytes b) = refl
    cases t (varint v) = refl

pub received_new : (version : Version) (p : Parameter) → draft_10 < version → received version p ≡ p
unfolding received
received_new version p h = cases p.ty p.value
  where
    cases :
        (t : ℕ) (v : ParameterValue)
        → received version (record { ty = t; value = v }) ≡ record { ty = t; value = v }
    cases t (bytes b) = refl
    cases t (varint v) = ground arith

module _ ⦃o : Octets⦄ where
  value_codes :
      (version : Version) (ty : ℕ) (value : ParameterValue)
      → version ≤ draft_10
      → Fits value
      → Codes {A = Parameter}
          (put_value value)
          (o.get_varint >>= λ len.
            o.get_bytes len >>= λ b. pure (record { ty = ty; value = bytes b }))
          (record { ty = ty; value = received_value version value })
  unfolding put_value received_value
  value_codes version ty (bytes b) h fits =
      seq _ (varint_codes (length b) fits)
        (last (λ x. record { ty = ty; value = bytes x }) (bytes_codes b))
  value_codes version ty (varint v) h fits = rw (le→leb version draft_10 h) (
      seq _ (varint_codes 1 (omega arith))
        (last (λ x. record { ty = ty; value = bytes x }) (byte_codes (v % 256))))

  -- A parameter comes back as `received` says: unchanged from draft 11 on.
  pub codes :
      (ctx : KvpCtx) (p : Parameter)
      → IsDraft ctx.version
      → IsEncodable ctx.version p
      → (draft_15 ≤ ctx.version → ctx.previous_key ≤ p.ty)
      → Codes (to_bytes ctx p) (from_bytes ctx) (received ctx.version p)
  unfolding to_bytes from_bytes received
  codes ctx p d v le =
      ranges draft_07 draft_10 draft_11 draft_16 ctx.version d.0 d.1 (omega arith)
        (λ h.
          seq _ (varint_codes p.ty v.type_fits)
            (value_codes ctx.version p.ty p.value h v.value_fits))
        (λ h.
          last_as from (from-into p ∙ sym (received_new ctx.version p h))
            (RoundTrip.codes ctx (into p) (v.parity (omega arith)) (unfold into in le)))

  -- Up to draft 10 the type before does not count.
  pub to_bytes_old :
      (version m n : ℕ) (p : Parameter)
      → IsDraft version
      → version ≤ draft_10
      → to_bytes (record { version = version; previous_key = m }) p
        ≡ to_bytes (record { version = version; previous_key = n }) p
  unfolding to_bytes
  to_bytes_old version m n p d h = rw (between-true draft_07 draft_10 version d.0 h)
