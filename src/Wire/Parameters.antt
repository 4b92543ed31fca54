-- ===== src/Wire/Parameters.antt =====
-- quiche_moq_wire/src/parameters.rs: a counted sequence of parameters.
pub mod Find
pub mod RoundTrip
use quiche_moq.Common.{
  List, Option, [], if◌then◌else◌, leb, length, map, none, some, suc, zero, ℕ, ◌==◌, ◌∷◌,
}
use quiche_moq.Octets.{M, Octets, Reader, Writer, pure, ◌>>=◌, ◌>>◌}
use quiche_moq.Octets.Codec.{for_each}
use quiche_moq.Wire.Version.{Version, draft_10}
use quiche_moq.Wire.Tuple.{Bytes}
use quiche_moq.Wire.KeyValuePair.{KvpCtx}
use quiche_moq.Wire.KeyValuePairs
use quiche_moq.Wire.Parameter.{Parameter, ParameterValue}
use quiche_moq.Wire.Parameter

abbrev pub Parameters : Type 0
Parameters = List Parameter

-- `iter().find(|p| p.ty == ty)`
unfoldable pub find : ℕ → Parameters → Option Parameter
find ty [] = none
find ty (p ∷ ps) = if p.ty == ty then some p else find ty ps

unfoldable pub as_varint : ParameterValue → Option ℕ
as_varint (ParameterValue.varint v) = some v
as_varint (ParameterValue.bytes b) = none

unfoldable pub as_bytes : ParameterValue → Option Bytes
as_bytes (ParameterValue.varint v) = none
as_bytes (ParameterValue.bytes b) = some b

unfoldable pub and_then : {A B : Type 0} → Option A → (A → Option B) → Option B
and_then none f = none
and_then (some a) f = f a

unfoldable pub get_varint : ℕ → Parameters → Option ℕ
unfolding find as_varint and_then
get_varint ty ps = and_then (find ty ps) (λ p. as_varint p.value)

unfoldable pub get_bytes : ℕ → Parameters → Option Bytes
unfolding find as_bytes and_then
get_bytes ty ps = and_then (find ty ps) (λ p. as_bytes p.value)

module _ ⦃o : Octets⦄ (version : Version) where
  -- `for _ in 0..count`, up to draft 10.
  unfoldable pub read_from : ℕ → ℕ → M Reader Parameters
  read_from prev_key zero = pure []
  read_from prev_key (suc count) = do
    p ← Parameter.from_bytes (record { version = version; previous_key = prev_key })
    ps ← read_from p.ty count
    pure (p ∷ ps)

  unfoldable pub from_bytes : M Reader Parameters
  unfolding read_from
  from_bytes = do
    count ← o.get_varint
    if leb version draft_10
        then read_from 0 count
        else (do kvps ← KeyValuePairs.from_bytes version count; pure (map Parameter.from kvps))

  unfoldable pub to_bytes : Parameters → M Writer (Unit {0})
  to_bytes ps = do
    o.put_varint (length ps)
    if leb version draft_10
        then for_each (Parameter.to_bytes (record { version = version; previous_key = 0 })) ps
        else KeyValuePairs.to_bytes version (map Parameter.into ps)
