-- ===== src/Wire/SetupParameters.antt =====
-- quiche_moq_wire/src/setup_parameters.rs: what an endpoint says of itself in its setup message.
pub mod Collect
pub mod Entries
pub mod RoundTrip
use quiche_moq.Common.{
  Option, [], if◌then◌else◌, leb, none, some, suc, zero, ℕ, ◌&&◌, ◌++◌, ◌==◌, ◌∷◌,
}
use quiche_moq.Octets.{M, Octets, Reader, Result, Writer, bind, lift, ok, panic, pure, ◌>>=◌, ◌>>◌}
use quiche_moq.Wire.Version.{Version, between, draft_07, draft_10, draft_11}
use quiche_moq.Wire.Tuple.{Bytes}
use quiche_moq.Wire.Role.{Role, to_id}
use quiche_moq.Wire.Role
use quiche_moq.Wire.Parameter.{Parameter, ParameterValue, bytes, new_bytes, new_varint, varint}
use quiche_moq.Wire.Parameter
use quiche_moq.Wire.Parameters.{Parameters}
use quiche_moq.Wire.Parameters

pub record SetupParameters : Type 0 where
  pub path : Option Bytes
  pub max_request_id : Option ℕ
  pub role : Option Role
  pub extra_parameters : Parameters

abbrev pub empty : SetupParameters
empty = record { path = none; max_request_id = none; role = none; extra_parameters = [] }

-- `if let Some(x) = x { params.push(f(x)) }`
unfoldable pub push_some : {A : Type 0} → (A → Parameter) → Option A → Parameters → Parameters
push_some f none ps = ps
push_some f (some a) ps = f a ∷ ps

unfoldable pub entries : SetupParameters → Parameters
unfolding push_some new_bytes new_varint to_id
entries s = push_some (new_bytes 0x01) s.path (
    push_some (new_varint 0x02) s.max_request_id
      (push_some (λ r. new_varint 0x00 (to_id r)) s.role s.extra_parameters))

-- `assert_eq!(v.len(), 1); v[0]`
unfoldable pub only_byte : Bytes → Result ℕ
only_byte (b ∷ []) = ok b
only_byte [] = panic
only_byte (b ∷ c ∷ v) = panic

unfoldable pub push : SetupParameters → Parameter → SetupParameters
push s p = record s { extra_parameters = s.extra_parameters ++ (p ∷ []) }

module _ ⦃o : Octets⦄ (version : Version) where
  -- The arms for a value that is bytes.
  unfoldable pub apply_bytes : SetupParameters → Parameter → Bytes → Result SetupParameters
  unfolding push only_byte
  apply_bytes s p v =
      if p.ty == 0x02 && between draft_07 draft_10 version
      then bind (only_byte v) (λ b. ok (record s { max_request_id = some b }))
      else if p.ty == 0x01
      then ok (record s { path = some v })
      else if p.ty == 0x00 && version == draft_07
      then bind (Role.from_bytes version v) (λ (r, rest). ok (record s { role = some r }))
      else ok (push s p)

  -- The arms for a value that is a number.
  unfoldable pub apply_varint : SetupParameters → Parameter → ℕ → Result SetupParameters
  unfolding push
  apply_varint s p v =
      if p.ty == 0x02 && leb draft_11 version
      then ok (record s { max_request_id = some v })
      else ok (push s p)

  unfoldable pub apply_value : SetupParameters → Parameter → ParameterValue → Result SetupParameters
  unfolding apply_bytes apply_varint
  apply_value s p (bytes v) = apply_bytes s p v
  apply_value s p (varint v) = apply_varint s p v

  -- The `match (p.ty, &p.value, version)`.
  unfoldable pub apply : SetupParameters → Parameter → Result SetupParameters
  unfolding apply_value
  apply s p = apply_value s p p.value

  unfoldable pub read_from : ℕ → SetupParameters → ℕ → M Reader SetupParameters
  unfolding apply
  read_from prev_key s zero = pure s
  read_from prev_key s (suc count) = do
    p ← Parameter.from_bytes (record { version = version; previous_key = prev_key })
    s' ← lift (apply s p)
    read_from p.ty s' count

  unfoldable pub from_bytes : M Reader SetupParameters
  unfolding read_from
  from_bytes = do number_of_parameters ← o.get_varint; read_from 0 empty number_of_parameters

  unfoldable pub to_bytes : SetupParameters → M Writer (Unit {0})
  unfolding entries
  to_bytes s = Parameters.to_bytes version (entries s)
