-- ===== src/Wire/Control/TrackStatus.antt =====
-- quiche_moq_wire/src/control_message/track_status.rs
use quiche_moq.Common.{[], length, ℕ, ◌∷◌}
use quiche_moq.Octets.{M, Octets, Reader, Writer, ok, pure, ◌>>=◌, ◌>>◌}
use quiche_moq.Octets.Codec.{Codes, last, seq}
use quiche_moq.Octets.Fields.{IsVarint, varint_codes}
use quiche_moq.Wire.Version.{Version}
use quiche_moq.Wire.Control.Frame.{ControlMessage}
use quiche_moq.Wire.Namespace.{Namespace}
use quiche_moq.Wire.Namespace
use quiche_moq.Wire.Tuple.RoundTrip as Tuple
use quiche_moq.Wire.Tuple.{Bytes, get_sized, put_sized}

pub record TrackStatusMessage : Type 0 where
  pub track_namespace : Namespace
  pub track_name : Bytes
  pub status_code : ℕ
  pub last_group_id : ℕ
  pub last_object_id : ℕ

pub record IsEncodable (m : TrackStatusMessage) : Type 0 where
  pub namespace : Tuple.IsEncodable m.track_namespace
  pub name : IsVarint (length m.track_name)
  pub code_fits : IsVarint m.status_code
  pub group_fits : IsVarint m.last_group_id
  pub object_fits : IsVarint m.last_object_id

module _ ⦃o : Octets⦄ where
  open o use {get_varint, put_varint}

  unfoldable pub to_body_bytes : Version → TrackStatusMessage → M Writer (Unit {0})
  to_body_bytes version m = do
    Namespace.to_bytes m.track_namespace
    put_sized m.track_name
    put_varint m.status_code
    put_varint m.last_group_id
    put_varint m.last_object_id

  unfoldable pub from_body_bytes : Version → M Reader TrackStatusMessage
  from_body_bytes version = do
    track_namespace ← Namespace.from_bytes
    track_name ← get_sized
    status_code ← get_varint
    last_group_id ← get_varint
    last_object_id ← get_varint
    pure (record {
      track_namespace = track_namespace;
      track_name = track_name;
      status_code = status_code;
      last_group_id = last_group_id;
      last_object_id = last_object_id;
    })

  unfoldable pub message : ControlMessage TrackStatusMessage
  message = record {
    message_ids = 0x0d ∷ [];
    message_id_for_version = λ version. ok 0x0d;
    to_body_bytes = to_body_bytes;
    from_body_bytes = from_body_bytes;
  }

  pub codes :
      (version : Version) (m : TrackStatusMessage)
      → IsEncodable m
      → Codes (to_body_bytes version m) (from_body_bytes version) m
  unfolding to_body_bytes from_body_bytes
  codes version m v = seq _ (Namespace.codes m.track_namespace v.namespace) (
      seq _ (Tuple.sized_codes m.track_name v.name) (
        seq _ (varint_codes _ v.code_fits)
          (seq _ (varint_codes _ v.group_fits) (last _ (varint_codes _ v.object_fits)))))
