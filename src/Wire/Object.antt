-- ===== src/Wire/Object.antt =====
-- quiche_moq_wire/src/object.rs: the header of an object in a subgroup.
pub mod Loop
pub mod RoundTrip
mod Tests
use quiche_moq.Common.{
  Option, [], if◌then◌else◌, length, ltb, none, some, suc, zero, ℕ, ◌-◌, ◌==◌, ◌∷◌,
}
use quiche_moq.Octets.{M, Octets, Reader, Writer, ok, panic, panics, pure, ◌>>=◌, ◌>>◌}
use quiche_moq.Octets.Codec.{put_unwrapped}
use quiche_moq.Wire.Version.{Version}
use quiche_moq.Wire.KeyValuePair.{KeyValuePair}
use quiche_moq.Wire.KeyValuePair
use quiche_moq.Wire.KeyValuePairs.{KeyValuePairs, context}
use quiche_moq.Wire.KeyValuePairs
use quiche_moq.Wire.Subgroup.{SubgroupHeader}

pub record ObjectHeader : Type 0 where
  pub id : ℕ
  pub subgroup_ty : ℕ
  pub extension_headers : KeyValuePairs
  pub payload_len : ℕ
  pub status : Option ℕ

unfoldable pub new : ℕ → ℕ → ℕ → KeyValuePairs → ObjectHeader
new id payload_len subgroup_ty extension_headers = record {
  id = id;
  subgroup_ty = subgroup_ty;
  extension_headers = extension_headers;
  payload_len = payload_len;
  status = none;
}

module _ ⦃o : Octets⦄ (version : Version) where
  open o use {get_varint, put_varint}

  -- `while b.off() < ext_hdr_end { … } assert_eq!(b.off(), ext_hdr_end)`, where `start` bytes were left
  -- when the loop began and `len` is the length in front of it: `start - length r` bytes are read.
  unfoldable pub read_extensions : ℕ → ℕ → ℕ → ℕ → M Reader KeyValuePairs
  read_extensions zero start len prev_key r = panic
  read_extensions (suc fuel) start len prev_key r =
      let rest : M Reader KeyValuePairs = (do
        kvp ← KeyValuePair.from_bytes (context version prev_key)
        kvps ← read_extensions fuel start len kvp.ty
        pure (kvp ∷ kvps)) in
      if ltb (start - length r) len
      then rest r
      else if start - length r == len
      then ok ([], r)
      else panic

  -- A pair takes at least one byte, so that a loop over `len` bytes ends after `len` rounds.
  unfoldable pub get_extensions : ℕ → M Reader KeyValuePairs
  unfolding read_extensions
  get_extensions ext_hdr_len r = read_extensions (suc ext_hdr_len) (length r) ext_hdr_len 0 r

  unfoldable pub get_extension_headers : ℕ → M Reader KeyValuePairs
  unfolding get_extensions
  get_extension_headers subgroup_ty =
      if subgroup_ty == 0x4
      then pure []
      else if subgroup_ty == 0xd
      then (do ext_hdr_len ← get_varint; get_extensions ext_hdr_len)
      else panics

  unfoldable pub get_status : ℕ → M Reader (Option ℕ)
  get_status payload_len =
      if payload_len == 0 then (do status ← get_varint; pure (some status)) else pure none

  unfoldable pub from_bytes : SubgroupHeader → M Reader ObjectHeader
  unfolding get_extension_headers get_status
  from_bytes subgroup = do
    id ← get_varint
    extension_headers ← get_extension_headers subgroup.ty
    payload_len ← get_varint
    status ← get_status payload_len
    pure (record {
      id = id;
      subgroup_ty = subgroup.ty;
      extension_headers = extension_headers;
      payload_len = payload_len;
      status = status;
    })

  unfoldable pub put_extension_headers : ℕ → KeyValuePairs → M Writer (Unit {0})
  put_extension_headers subgroup_ty kvps =
      if subgroup_ty == 0x4
      then pure tt
      else if subgroup_ty == 0xd
      then (do
        put_varint (KeyValuePairs.byte_length version kvps)
        KeyValuePairs.to_bytes version kvps)
      else panics

  unfoldable pub to_bytes : ObjectHeader → M Writer (Unit {0})
  unfolding put_extension_headers
  to_bytes h = do
    put_varint h.id
    put_extension_headers h.subgroup_ty h.extension_headers
    put_varint h.payload_len
    if h.payload_len == 0 then put_unwrapped put_varint h.status else pure tt
