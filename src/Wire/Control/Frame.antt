-- ===== src/Wire/Control/Frame.antt =====
-- quiche_moq_wire/src/control_message/mod.rs and header.rs: type, length and body of a message.
pub mod InOrder
pub mod RoundTrip
use quiche_moq.Common.{List, if◌then◌else◌, ℕ, ◌%◌, ◌-◌, ◌^◌}
use quiche_moq.Octets.{M, Octets, Reader, Result, Writer, lift, panics, pure, ◌>>=◌, ◌>>◌}
use quiche_moq.Octets.Cursor.{off, put_u16_at, put_varint_with_len_at}
use quiche_moq.Wire.Version.{Version, between, draft_07, draft_10, draft_11, draft_16}

pub record ControlMessageHeader : Type 0 where
  pub ty : ℕ
  pub len : ℕ

-- The trait. `message_id_for_version` panics at a version that it does not know.
pub record ControlMessage (A : Type 0) : Type 0 where
  pub message_ids : List ℕ
  pub message_id_for_version : Version → Result ℕ
  pub to_body_bytes : Version → A → M Writer (Unit {0})
  pub from_body_bytes : Version → M Reader A

module _ ⦃o : Octets⦄ where
  open o use {get_varint, get_u16, put_varint, put_u16, skip}

  module _ (version : Version) where
    unfoldable pub get_length : M Reader ℕ
    get_length =
        if between draft_07 draft_10 version
        then get_varint
        else if between draft_11 draft_16 version
        then get_u16
        else panics

    unfoldable pub header_from_bytes : M Reader ControlMessageHeader
    unfolding get_length
    header_from_bytes = do ty ← get_varint; len ← get_length; pure (record { ty = ty; len = len })

    unfoldable pub header_to_bytes : ControlMessageHeader → M Writer (Unit {0})
    header_to_bytes h = do
      put_varint h.ty
      if between draft_07 draft_10 version
          then put_varint h.len
          else if between draft_11 draft_16 version
          then put_u16 (h.len % 2 ^ 16)
          else panics

    -- `len_off` is the offset of the two bytes that were left free for the length.
    unfoldable pub set_control_message_length : ℕ → M Writer (Unit {0})
    set_control_message_length len_off = do
      end ← off
      let len = end - len_off - 2
      if between draft_07 draft_10 version
          then put_varint_with_len_at len 2 len_off
          else if between draft_11 draft_16 version
          then put_u16_at (len % 2 ^ 16) len_off
          else panics

    unfoldable pub encode_control_message : ℕ → M Writer (Unit {0}) → M Writer (Unit {0})
    encode_control_message ty f = do
      put_varint ty
      len_off ← off
      skip 2
      f
      set_control_message_length len_off

  -- `impl ToBytes for T where T: ControlMessage`, and the same for `FromBytes`. The type in the header
  -- is compared in debug builds only.
  unfoldable pub to_bytes : {A : Type 0} → ControlMessage A → Version → A → M Writer (Unit {0})
  unfolding encode_control_message
  to_bytes m version a = do
    ty ← lift (m.message_id_for_version version)
    encode_control_message version ty (m.to_body_bytes version a)

  unfoldable pub from_bytes : {A : Type 0} → ControlMessage A → Version → M Reader A
  unfolding header_from_bytes
  from_bytes m version = do header ← header_from_bytes version; m.from_body_bytes version
