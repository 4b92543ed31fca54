-- ===== src/Wire/Parameter.antt =====
-- quiche_moq_wire/src/parameter.rs: a parameter of a message, in the coding of each draft.
pub mod RoundTrip
use quiche_moq.Common.{if◌then◌else◌, length, ℕ, ◌%◌}
use quiche_moq.Octets.{M, Octets, Reader, Writer, panics, pure, ◌>>=◌, ◌>>◌}
use quiche_moq.Wire.Version.{between, draft_07, draft_10, draft_11, draft_16}
use quiche_moq.Wire.Tuple.{Bytes}
use quiche_moq.Wire.KeyValuePair.{KeyValuePair, KeyValuePairValue, KvpCtx}
use quiche_moq.Wire.KeyValuePair

pub data ParameterValue : Type 0 where
  bytes : Bytes → ParameterValue
  varint : ℕ → ParameterValue

pub record Parameter : Type 0 where
  pub ty : ℕ
  pub value : ParameterValue

unfoldable pub new_bytes : ℕ → Bytes → Parameter
new_bytes ty value = record { ty = ty; value = bytes value }

unfoldable pub new_varint : ℕ → ℕ → Parameter
new_varint ty value = record { ty = ty; value = varint value }

unfoldable pub value_from : KeyValuePairValue → ParameterValue
value_from (KeyValuePairValue.varint v) = varint v
value_from (KeyValuePairValue.bytes b) = bytes b

-- `impl From<KeyValuePair> for Parameter`
unfoldable pub from : KeyValuePair → Parameter
unfolding value_from
from kvp = record { ty = kvp.ty; value = value_from kvp.value }

unfoldable pub value_into : ParameterValue → KeyValuePairValue
value_into (varint v) = KeyValuePairValue.varint v
value_into (bytes b) = KeyValuePairValue.bytes b

-- `impl From<Parameter> for KeyValuePair`
unfoldable pub into : Parameter → KeyValuePair
unfolding value_into
into p = record { ty = p.ty; value = value_into p.value }

module _ ⦃o : Octets⦄ where
  open o use {get_varint, get_bytes, put_varint, put_bytes, put_u8}

  unfoldable pub from_bytes : KvpCtx → M Reader Parameter
  unfolding from
  from_bytes ctx =
      if between draft_07 draft_10 ctx.version
      then (do
        ty ← get_varint
        len ← get_varint
        value ← get_bytes len
        pure (record { ty = ty; value = bytes value }))
      else if between draft_11 draft_16 ctx.version
      then (do kvp ← KeyValuePair.from_bytes ctx; pure (from kvp))
      else panics

  -- Up to draft 10 a number is written as one byte, `*v as u8`.
  unfoldable pub put_value : ParameterValue → M Writer (Unit {0})
  put_value (varint v) = do put_varint 1; put_u8 (v % 256)
  put_value (bytes v) = do put_varint (length v); put_bytes v

  unfoldable pub to_bytes : KvpCtx → Parameter → M Writer (Unit {0})
  unfolding put_value into
  to_bytes ctx p =
      if between draft_07 draft_10 ctx.version
      then (do put_varint p.ty; put_value p.value)
      else if between draft_11 draft_16 ctx.version
      then KeyValuePair.to_bytes ctx (into p)
      else panics
