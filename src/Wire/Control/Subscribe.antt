-- ===== src/Wire/Control/Subscribe.antt =====
-- quiche_moq_wire/src/control_message/subscribe.rs
pub mod RoundTrip
use quiche_moq.Common.{List, Option, [], if◌then◌else◌, length, ltb, none, not, some, ℕ, ◌+◌, ◌∷◌}
use quiche_moq.Octets.{
  M, Octets, Reader, Result, Writer, err, lift, ok, panics, protocol_violation, pure, ◌>>=◌, ◌>>◌,
}
use quiche_moq.Octets.Codec.{for_each, put_unwrapped}
use quiche_moq.Wire.Version.{Version, between, draft_07, draft_10, draft_11, draft_12, draft_16}
use quiche_moq.Wire.Control.Frame.{ControlMessage}
use quiche_moq.Wire.Tuple.{Bytes, get_sized, put_sized}
use quiche_moq.Wire.Namespace.{Namespace}
use quiche_moq.Wire.Namespace
use quiche_moq.Wire.Tuple
use quiche_moq.Wire.Location.{Location}
use quiche_moq.Wire.Location
use quiche_moq.Wire.NamespaceTrackname.{NamespaceTrackname, new}
use quiche_moq.Wire.Parameters.{Parameters}
use quiche_moq.Wire.Parameters
use quiche_moq.Wire.Control.FilterType.{FilterType, has_start_location, has_end_group}
use quiche_moq.Wire.Control.FilterType

pub record SubscribeMessage : Type 0 where
  pub request_id : ℕ
  pub track_alias : Option ℕ
  pub namespace_trackname : NamespaceTrackname
  pub subscriber_priority : ℕ
  pub group_order : ℕ
  pub forward : Option ℕ
  pub filter_type : FilterType
  pub start_location : Option Location
  pub end_group : Option ℕ
  pub parameters : Parameters

abbrev pub track_namespace : SubscribeMessage → Namespace
track_namespace m = m.namespace_trackname.namespace

abbrev pub track_name : SubscribeMessage → Bytes
track_name m = m.namespace_trackname.trackname

-- `iter().map(|n| n.len()).sum::<usize>()`
unfoldable pub total_length : List Bytes → ℕ
total_length [] = 0
total_length (n ∷ ns) = length n + total_length ns

unfoldable pub full_track_name_len : SubscribeMessage → ℕ
unfolding total_length
full_track_name_len m = total_length (track_namespace m) + length (track_name m)

unfoldable pub validate : SubscribeMessage → Result (Unit {0})
unfolding full_track_name_len
validate m =
    if not (between 1 32 (length (track_namespace m)))
    then err protocol_violation
    else if ltb 4096 (full_track_name_len m)
    then err protocol_violation
    else ok tt

module _ ⦃o : Octets⦄ where
  open o use {get_varint, get_u8, put_varint, put_u8}

  unfoldable pub put_track_alias : Version → Option ℕ → M Writer (Unit {0})
  put_track_alias version track_alias =
      if between draft_07 draft_11 version
      then put_unwrapped put_varint track_alias
      else if between draft_12 draft_16 version
      then pure tt
      else panics

  -- The tuple is written out in place here.
  unfoldable pub put_track_namespace : Namespace → M Writer (Unit {0})
  put_track_namespace ns = do put_varint (length ns); for_each put_sized ns

  unfoldable pub put_forward : Version → Option ℕ → M Writer (Unit {0})
  put_forward version forward =
      if between draft_07 draft_10 version
      then pure tt
      else if between draft_11 draft_16 version
      then put_unwrapped put_u8 forward
      else panics

  unfoldable pub to_body_bytes : Version → SubscribeMessage → M Writer (Unit {0})
  unfolding validate put_track_alias put_track_namespace put_forward has_start_location
      has_end_group
  to_body_bytes version m = do
    lift (validate m)
    put_varint m.request_id
    put_track_alias version m.track_alias
    put_track_namespace (track_namespace m)
    put_sized (track_name m)
    put_u8 m.subscriber_priority
    put_u8 m.group_order
    put_forward version m.forward
    FilterType.to_bytes m.filter_type
    if has_start_location m.filter_type
        then put_unwrapped Location.to_bytes m.start_location
        else pure tt
    if has_end_group m.filter_type then put_unwrapped put_varint m.end_group else pure tt
    Parameters.to_bytes version m.parameters

  unfoldable pub get_track_alias : Version → M Reader (Option ℕ)
  get_track_alias version =
      if between draft_07 draft_11 version
      then (do track_alias ← get_varint; pure (some track_alias))
      else if between draft_12 draft_16 version
      then pure none
      else panics

  unfoldable pub get_forward : Version → M Reader (Option ℕ)
  get_forward version =
      if between draft_07 draft_10 version
      then pure none
      else if between draft_11 draft_16 version
      then (do forward ← get_u8; pure (some forward))
      else panics

  unfoldable pub get_start_location : FilterType → M Reader (Option Location)
  get_start_location f =
      if has_start_location f
      then (do start_location ← Location.from_bytes; pure (some start_location))
      else pure none

  unfoldable pub get_end_group : FilterType → M Reader (Option ℕ)
  get_end_group f =
      if has_end_group f then (do end_group ← get_varint; pure (some end_group)) else pure none

  unfoldable pub from_body_bytes : Version → M Reader SubscribeMessage
  unfolding get_track_alias get_forward get_start_location get_end_group new
  from_body_bytes version = do
    request_id ← get_varint
    track_alias ← get_track_alias version
    track_namespace ← Tuple.from_bytes
    track_name ← get_sized
    subscriber_priority ← get_u8
    group_order ← get_u8
    forward ← get_forward version
    filter_type ← FilterType.from_bytes
    start_location ← get_start_location filter_type
    end_group ← get_end_group filter_type
    parameters ← Parameters.from_bytes version
    pure (record {
      request_id = request_id;
      track_alias = track_alias;
      namespace_trackname = new track_namespace track_name;
      subscriber_priority = subscriber_priority;
      group_order = group_order;
      forward = forward;
      filter_type = filter_type;
      start_location = start_location;
      end_group = end_group;
      parameters = parameters;
    })

  unfoldable pub message : ControlMessage SubscribeMessage
  message = record {
    message_ids = 0x03 ∷ [];
    message_id_for_version = λ version. ok 0x03;
    to_body_bytes = to_body_bytes;
    from_body_bytes = from_body_bytes;
  }
