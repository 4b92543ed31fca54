-- ===== src/Wire/Control/Tests.antt =====
-- The properties of the control messages at concrete inputs, over the cursor of Octets.Rfc9000, and a run
-- of the decoder on the message of a Rust test.
use quiche_moq.Common.{List, [], arith, none, refl, some, ℕ, ◌%◌, ◌++◌, ◌^◌, ◌↔◌, ◌∷◌, ◌≡◌}
use quiche_moq.Octets.{assert, err, ok, panic, protocol_violation, with_capacity, ◌>>=◌, ◌>>◌}
use quiche_moq.Octets.Codec.{Codes, times}
use quiche_moq.Octets.Fields.{varint_codes}
use quiche_moq.Octets.Cursor.{peek_varint}
use quiche_moq.Octets.Rfc9000.{
  rfc9000, get_u8, get_u16, get_bytes, get_varint, peek_u8, peek_bytes, varint_parse_len,
}
use quiche_moq.Wire.Version.{Version, between, draft_07, draft_16}
use quiche_moq.Wire.Tuple
use quiche_moq.Wire.Parameters
use quiche_moq.Wire.Parameters.RoundTrip.{parameters_codes, received}
use quiche_moq.Wire.Parameters.RoundTrip as ParametersRoundTrip
use quiche_moq.Octets.Rfc9000.{varint}
use quiche_moq.Wire.Control.Frame.{get_length}
use quiche_moq.Wire.Control.Frame
use quiche_moq.Wire.Control.Frame.InOrder.{message_limit}
use quiche_moq.Wire.Control.Frame.RoundTrip.{CodesBelow, frame_codes}
use quiche_moq.Wire.Control.FilterType.{FilterType}
use quiche_moq.Wire.Control.FilterType
use quiche_moq.Wire.Control.Subscribe.{
  SubscribeMessage, validate, full_track_name_len, track_name, track_namespace,
}
use quiche_moq.Wire.Control.Subscribe
use quiche_moq.Wire.Control.Subscribe.RoundTrip.{IsNamed, validate_iff, subscribe_codes}
use quiche_moq.Wire.Control.Subscribe.RoundTrip as SubscribeRoundTrip
use quiche_moq.Wire.Control.SubscribeOk.{SubscribeOkMessage, ascending, from_parameters}
use quiche_moq.Wire.Control.SubscribeOk
use quiche_moq.Wire.Control.SubscribeOk.RoundTrip.{IsSendable, subscribe_ok_codes}
use quiche_moq.Wire.Control.ServerSetup.{ServerSetupMessage, from_body_bytes-Cut}
use quiche_moq.Wire.Control.ServerSetup
use quiche_moq.Wire.Control.PublishOk.{PublishOkMessage, publish_ok_codes}
use quiche_moq.Wire.Control.PublishOk
use quiche_moq.Wire.Control.Enum.{subscribe}
use quiche_moq.Wire.Control.Enum
use quiche_moq.Wire.Control.Enum.RoundTrip.{control_message_codes, unknown_id}
use quiche_moq.Wire.Control.Enum.RoundTrip as EnumRoundTrip

abbrev injured_wallaby : List ℕ
injured_wallaby =
    0x69 ∷ 0x6e ∷ 0x6a ∷ 0x75 ∷ 0x72 ∷ 0x65 ∷ 0x64 ∷ 0x2d ∷ 0x77 ∷ 0x61 ∷ 0x6c ∷ 0x6c ∷ 0x61 ∷ 0x62
    ∷ 0x79 ∷ []

abbrev video : List ℕ
video = 0x76 ∷ 0x69 ∷ 0x64 ∷ 0x65 ∷ 0x6f ∷ []

abbrev subscribe_video : SubscribeMessage
subscribe_video = record {
  request_id = 1;
  track_alias = some 1;
  namespace_trackname = record { namespace = injured_wallaby ∷ []; trackname = video };
  subscriber_priority = 1;
  group_order = 2;
  forward = none;
  filter_type = FilterType.next_group_start;
  start_location = none;
  end_group = none;
  parameters = [];
}

-- The second message of `decode_subscribe_draft7`.
abbrev subscribe_video_bytes : List ℕ
subscribe_video_bytes =
    0x03 ∷ 0x1d ∷ 0x1 ∷ 0x1 ∷ 0x1 ∷ 0xf ∷ 0x69 ∷ 0x6e ∷ 0x6a ∷ 0x75 ∷ 0x72 ∷ 0x65 ∷ 0x64 ∷ 0x2d
    ∷ 0x77 ∷ 0x61 ∷ 0x6c ∷ 0x6c ∷ 0x61 ∷ 0x62 ∷ 0x79 ∷ 0x5 ∷ 0x76 ∷ 0x69 ∷ 0x64 ∷ 0x65 ∷ 0x6f ∷ 0x1
    ∷ 0x2 ∷ 0x1 ∷ 0x0 ∷ []

decode_subscribe_draft7 :
    Enum.from_bytes draft_07 subscribe_video_bytes ≡ ok (subscribe subscribe_video, [])
unfolding Enum.from_bytes peek_varint ◌>>=◌ ◌>>◌ assert with_capacity times between
    Subscribe.message Frame.from_bytes Subscribe.from_body_bytes FilterType.from_bytes
    Tuple.from_bytes Parameters.from_bytes get_u8 get_u16 get_bytes get_varint get_length peek_u8
    peek_bytes varint_parse_len FilterType.has_start_location FilterType.has_end_group
decode_subscribe_draft7 = refl

no_parameters : (version : Version) → ParametersRoundTrip.AreEncodable version []
no_parameters version = record { each = tt; count = omega arith }

subscribe_video_valid : validate subscribe_video ≡ ok tt
unfolding validate between
subscribe_video_valid = refl

subscribe_video_encodable : SubscribeRoundTrip.IsEncodable draft_07 subscribe_video
subscribe_video_encodable = record {
  valid = subscribe_video_valid;
  request_id_fits = omega arith;
  alias_old = λ h. omega arith;
  alias_new = λ h. absurd (omega arith);
  forward_old = λ h. tt;
  forward_new = λ h. absurd (omega arith);
  filter = tt;
  start = tt;
  end = tt;
  pairs = no_parameters draft_07;
}

control_message_codes_example :
    CodesBelow message_limit
      (varint (EnumRoundTrip.id_of draft_07 (subscribe subscribe_video)))
      (Enum.to_bytes draft_07 (subscribe subscribe_video))
      (Enum.from_bytes draft_07)
      (EnumRoundTrip.received draft_07 (subscribe subscribe_video))
control_message_codes_example =
    control_message_codes draft_07 (subscribe subscribe_video) (omega arith, omega arith)
      subscribe_video_encodable

unknown_id_example : Enum.from_bytes draft_16 (varint 0x02 ++ []) ≡ err protocol_violation
unknown_id_example = unknown_id draft_16 0x02 [] (omega arith) refl

frame_codes_example :
    CodesBelow message_limit
      (varint 0x1a)
      (Frame.encode_control_message draft_16 0x1a (rfc9000.put_varint 100))
      (Frame.header_from_bytes draft_16 >>= λ _. rfc9000.get_varint)
      100
frame_codes_example =
    frame_codes draft_16 0x1a (omega arith, omega arith) (omega arith)
      (varint_codes 100 (omega arith))

subscribe_codes_example :
    Codes
      (Subscribe.to_body_bytes draft_07 subscribe_video)
      (Subscribe.from_body_bytes draft_07)
      (record subscribe_video { parameters = received draft_07 [] })
subscribe_codes_example =
    subscribe_codes draft_07 subscribe_video (omega arith, omega arith) subscribe_video_encodable

validate_iff_example :
    ((validate subscribe_video ≡ ok tt) ↔ IsNamed subscribe_video)
    × ((validate subscribe_video ≡ err protocol_violation) ↔ ¬ IsNamed subscribe_video)
validate_iff_example = validate_iff subscribe_video

-- The message of `recode_subscribe_ok_draft16`.
abbrev ok_message : SubscribeOkMessage
ok_message = record {
  request_id = 3;
  track_alias = some 99;
  parameters = record {
    expires = 0;
    group_order = ascending;
    largest_location = some (record { group = 1; object = 42 });
    extra_parameters = [];
  };
}

ok_message-IsSendable : IsSendable draft_16 ok_message.parameters
ok_message-IsSendable = record {
  expires_fits = omega arith;
  place = (omega arith, omega arith);
  extra = tt;
  count = omega arith;
  unknown = λ h. tt;
}

subscribe_ok_codes_example :
    Codes
      (SubscribeOk.to_body_bytes draft_16 ok_message)
      (SubscribeOk.from_body_bytes draft_16)
      (record ok_message {
        parameters = record ok_message.parameters { extra_parameters = received draft_16 [] };
      })
subscribe_ok_codes_example =
    subscribe_ok_codes draft_16 ok_message (omega arith, omega arith) (omega arith)
      (λ h. absurd (omega arith)) (λ h. omega arith) ok_message-IsSendable

from_body_bytes-Cut_example : ServerSetup.from_body_bytes draft_16 [] ≡ panic
from_body_bytes-Cut_example =
    from_body_bytes-Cut draft_16 draft_16 [] (omega arith) (unfold varint in tt)

publish_ok_codes_example :
    Codes
      (PublishOk.to_body_bytes draft_16 (record { request_id = 65537; parameters = [] }))
      (PublishOk.from_body_bytes draft_16)
      (record { request_id = 65537 % 2 ^ 16; parameters = received draft_16 [] })
publish_ok_codes_example =
    publish_ok_codes draft_16 (record { request_id = 65537; parameters = [] })
      (omega arith, omega arith) (no_parameters draft_16)
