-- ===== src/Wire/Control/SubscribeOk.antt =====
-- quiche_moq_wire/src/control_message/subscribe_ok.rs: fields up to draft 15, one sequence of
-- parameters in draft 16.
pub mod RoundTrip
pub mod Sorted
use quiche_moq.Common.{
  Bool, Option, [], false, if◌then◌else◌, none, not, some, true, zeros, ℕ, ◌&&◌, ◌++◌, ◌==◌, ◌||◌,
  ◌∷◌,
}
use quiche_moq.Octets.{
  M, Octets, Reader, Result, Writer, bind, err, fails, lift, ok, panic, panics, protocol_violation,
  pure, ◌>>=◌, ◌>>◌,
}
use quiche_moq.Octets.Codec.{put_unwrapped}
use quiche_moq.Wire.Version.{Version, between, draft_07, draft_11, draft_12, draft_15, draft_16}
use quiche_moq.Wire.Control.Frame.{ControlMessage}
use mathlib.Core.Bool.{xor}
use quiche_moq.Common.Sorting.{filter}
use quiche_moq.Wire.Tuple.{Bytes}
use quiche_moq.Wire.Location.{Location}
use quiche_moq.Wire.Location
use quiche_moq.Wire.Parameter.{Parameter, new_bytes, new_varint}
use quiche_moq.Wire.Parameters.{Parameters, get_bytes, get_varint}
use quiche_moq.Wire.Parameters
use quiche_moq.Wire.Control.Subscribe.{SubscribeMessage}

pub data GroupOrder : Type 0 where
  ascending descending : GroupOrder

pub record SubscribeOkParameters : Type 0 where
  pub expires : ℕ
  pub group_order : GroupOrder
  pub largest_location : Option Location
  pub extra_parameters : Parameters

pub record SubscribeOkMessage : Type 0 where
  pub request_id : ℕ
  pub track_alias : Option ℕ
  pub parameters : SubscribeOkParameters

unfoldable pub is_none : {A : Type 0} → Option A → Bool
is_none none = true
is_none (some a) = false

-- `assert!(track_alias.is_none() ^ sm.track_alias.is_none())`
unfoldable pub from : SubscribeMessage → Option ℕ → Option Location → Result SubscribeOkMessage
unfolding is_none
from sm track_alias largest_location =
    if xor (is_none track_alias) (is_none sm.track_alias)
    then ok (record {
      request_id = sm.request_id;
      track_alias = track_alias;
      parameters = record {
        expires = 0;
        group_order = ascending;
        largest_location = largest_location;
        extra_parameters = [];
      };
    })
    else panic

unfoldable pub order_id : GroupOrder → ℕ
order_id ascending = 1
order_id descending = 2

abbrev pub order_of : ℕ → GroupOrder
order_of n = if n == 2 then descending else ascending

-- The types with a field of their own in draft 16.
unfoldable pub is_known : ℕ → Bool
is_known ty = ty == 0x8 || ty == 0x9 || ty == 0x22

unfoldable pub unwrap_or : {A : Type 0} → A → Option A → A
unwrap_or d none = d
unwrap_or d (some a) = a

module _ ⦃o : Octets⦄ where
  -- The bytes that `to_bytes` leaves in `[0u8; 18]`.
  unfoldable pub location_bytes : Location → Result Bytes
  location_bytes l =
      bind (Location.to_bytes l (record { written = []; ahead = zeros 18 }))
        (λ (u, loc_o). ok loc_o.written)

  unfoldable pub put_location : Option Location → M Writer (Unit {0})
  unfolding location_bytes
  put_location none = o.put_u8 0
  put_location (some l) = do loc_buf ← lift (location_bytes l); o.put_u8 1; o.put_bytes loc_buf

  unfoldable pub to_bytes_inline : Version → SubscribeOkParameters → M Writer (Unit {0})
  unfolding order_id put_location
  to_bytes_inline version p = do
    o.put_varint p.expires
    o.put_u8 (order_id p.group_order)
    put_location p.largest_location
    Parameters.to_bytes version p.extra_parameters

  unfoldable pub expires_entry : ℕ → Parameters
  expires_entry expires = if expires == 0 then [] else new_varint 0x8 expires ∷ []

  unfoldable pub location_entry : Option Location → Result Parameters
  unfolding location_bytes
  location_entry none = ok []
  location_entry (some l) = bind (location_bytes l) (λ loc_buf. ok (new_bytes 0x9 loc_buf ∷ []))

  -- The sequence of draft 16.
  unfoldable pub entries : SubscribeOkParameters → Result Parameters
  unfolding expires_entry location_entry order_id
  entries p = bind (location_entry p.largest_location) (λ ls. ok (
      expires_entry p.expires
      ++ (ls ++ (new_varint 0x22 (order_id p.group_order) ∷ p.extra_parameters))))

  unfoldable pub put_parameters : Version → SubscribeOkParameters → M Writer (Unit {0})
  unfolding to_bytes_inline entries
  put_parameters version p =
      if between draft_07 draft_15 version
      then to_bytes_inline version p
      else if version == draft_16
      then (do params ← lift (entries p); Parameters.to_bytes version params)
      else panics

  unfoldable pub get_location : M Reader (Option Location)
  get_location = do
    content_exists ← o.get_u8
    if content_exists == 1 then (do l ← Location.from_bytes; pure (some l)) else pure none

  unfoldable pub from_bytes_inline : Version → M Reader SubscribeOkParameters
  unfolding get_location
  from_bytes_inline version = do
    expires ← o.get_varint
    group_order_byte ← o.get_u8
    if not (group_order_byte == 1) && not (group_order_byte == 2)
        then fails protocol_violation
        else (do
          largest_location ← get_location
          extra_parameters ← Parameters.from_bytes version
          pure (record {
            expires = expires;
            group_order = order_of group_order_byte;
            largest_location = largest_location;
            extra_parameters = extra_parameters;
          }))

  -- `Result::ok`
  abbrev pub ok_part : Result (Location × Reader) → Result (Option Location)
  ok_part (ok (l, rest)) = ok (some l)
  ok_part (err e) = ok none
  ok_part panic = panic

  unfoldable pub location_of : Option Bytes → Result (Option Location)
  location_of none = ok none
  location_of (some b) = ok_part (Location.from_bytes b)

  unfoldable pub from_parameters : Parameters → Result SubscribeOkParameters
  unfolding location_of is_known unwrap_or
  from_parameters params = bind (location_of (get_bytes 0x9 params)) (λ l. ok (record {
    expires = unwrap_or 0 (get_varint 0x8 params);
    group_order = order_of (unwrap_or 1 (get_varint 0x22 params));
    largest_location = l;
    extra_parameters = filter (λ p. not (is_known p.ty)) params;
  }))

  unfoldable pub get_parameters : Version → M Reader SubscribeOkParameters
  unfolding from_bytes_inline from_parameters
  get_parameters version =
      if between draft_07 draft_15 version
      then from_bytes_inline version
      else if version == draft_16
      then (do params ← Parameters.from_bytes version; lift (from_parameters params))
      else panics

  unfoldable pub to_body_bytes : Version → SubscribeOkMessage → M Writer (Unit {0})
  unfolding put_parameters
  to_body_bytes version m = do
    o.put_varint m.request_id
    if between draft_07 draft_11 version
        then pure tt
        else if between draft_12 draft_16 version
        then put_unwrapped o.put_varint m.track_alias
        else panics
    put_parameters version m.parameters

  unfoldable pub get_track_alias : Version → M Reader (Option ℕ)
  get_track_alias version =
      if between draft_07 draft_11 version
      then pure none
      else if between draft_12 draft_16 version
      then (do track_alias ← o.get_varint; pure (some track_alias))
      else panics

  unfoldable pub from_body_bytes : Version → M Reader SubscribeOkMessage
  unfolding get_track_alias get_parameters
  from_body_bytes version = do
    request_id ← o.get_varint
    track_alias ← get_track_alias version
    parameters ← get_parameters version
    pure (record { request_id = request_id; track_alias = track_alias; parameters = parameters })

  unfoldable pub message : ControlMessage SubscribeOkMessage
  message = record {
    message_ids = 0x04 ∷ [];
    message_id_for_version = λ version. ok 0x04;
    to_body_bytes = to_body_bytes;
    from_body_bytes = from_body_bytes;
  }
