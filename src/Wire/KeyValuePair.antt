-- ===== src/Wire/KeyValuePair.antt =====
-- quiche_moq_wire/src/key_value_pair.rs: one typed value; from draft 15 on its type is written as
-- the difference to the type before it.
pub mod RoundTrip
use quiche_moq.Common.{if◌then◌else◌, leb, length, not, ℕ, ◌%◌, ◌+◌, ◌-◌, ◌==◌, ◌^◌}
use quiche_moq.Octets.{
  M, Octets, Reader, Result, Writer, err, ok, protocol_violation, pure, ◌>>=◌, ◌>>◌,
}
use quiche_moq.Wire.Version.{Version, draft_15}
use quiche_moq.Wire.Tuple.{Bytes}

pub record KvpCtx : Type 0 where
  pub version : Version
  pub previous_key : ℕ

unfoldable pub new : Version → KvpCtx
new version = record { version = version; previous_key = 0 }

unfoldable pub with_previous_key : KvpCtx → ℕ → KvpCtx
with_previous_key ctx previous_key = record ctx { previous_key = previous_key }

pub data KeyValuePairValue : Type 0 where
  varint : ℕ → KeyValuePairValue
  bytes : Bytes → KeyValuePairValue

pub record KeyValuePair : Type 0 where
  pub ty : ℕ
  pub value : KeyValuePairValue

unfoldable pub new_varint : ℕ → ℕ → Result KeyValuePair
new_varint ty value =
    if not (ty % 2 == 0)
    then err protocol_violation
    else ok (record { ty = ty; value = varint value })

unfoldable pub new_bytes : ℕ → Bytes → Result KeyValuePair
new_bytes ty value =
    if ty % 2 == 0 then err protocol_violation else ok (record { ty = ty; value = bytes value })

-- u64 addition and subtraction.
abbrev pub add_u64 : ℕ → ℕ → ℕ
add_u64 a b = (a + b) % 2 ^ 64

abbrev pub sub_u64 : ℕ → ℕ → ℕ
sub_u64 a b = (a + 2 ^ 64 - b) % 2 ^ 64

module _ ⦃o : Octets⦄ where
  open o use {get_varint, get_bytes, put_varint, put_bytes, varint_len}

  unfoldable pub value_length : KeyValuePairValue → ℕ
  value_length (varint v) = varint_len v
  value_length (bytes b) = varint_len (length b) + length b

  unfoldable pub byte_length : KvpCtx → KeyValuePair → ℕ
  unfolding value_length
  byte_length ctx kvp =
      let type_field =
        if leb draft_15 ctx.version then sub_u64 kvp.ty ctx.previous_key else kvp.ty in
      varint_len type_field + value_length kvp.value

  unfoldable pub get_value : ℕ → M Reader KeyValuePairValue
  get_value ty =
      if ty % 2 == 0
      then (do v ← get_varint; pure (varint v))
      else (do len ← get_varint; b ← get_bytes len; pure (bytes b))

  unfoldable pub from_bytes : KvpCtx → M Reader KeyValuePair
  unfolding get_value
  from_bytes ctx = do
    ty ←
        if leb draft_15 ctx.version
        then (do d ← get_varint; pure (add_u64 ctx.previous_key d))
        else get_varint
    value ← get_value ty
    pure (record { ty = ty; value = value })

  unfoldable pub put_value : KeyValuePairValue → M Writer (Unit {0})
  put_value (varint v) = put_varint v
  put_value (bytes v) = do put_varint (length v); put_bytes v

  unfoldable pub to_bytes : KvpCtx → KeyValuePair → M Writer (Unit {0})
  unfolding put_value
  to_bytes ctx kvp = do
    if leb draft_15 ctx.version
        then put_varint (sub_u64 kvp.ty ctx.previous_key)
        else put_varint kvp.ty
    put_value kvp.value
