-- ===== src/Wire/Control/Enum/RoundTrip.antt =====
-- What the enum writes is dispatched back to the constructor it came from.
use quiche_moq.Common.{
  Bool-cases, Cut-append, [], append_assoc, arith, contains, false, if◌then◌else◌, inl, inr, leb,
  leb→le, leb→lt, refl, ℕ, ◌%◌, ◌++◌, ◌<◌, ◌^◌, ◌∷◌, ◌≡◌, ◌≤◌,
}
use quiche_moq.Octets.{Octets, Reader, err, ok, protocol_violation, pure, ◌>>=◌}
use quiche_moq.Octets.Fields.{HasVarint, IsAbsent, IsVarint}
use quiche_moq.Octets.Codec.{Codes}
use quiche_moq.Octets.Cursor.{peek_varint, peek_varint_lem, peek_varint-Cut}
use quiche_moq.Wire.Version.{
  IsDraft, Version, between-false, between-true, draft_07, draft_10, draft_11, draft_13, draft_16,
}
use quiche_moq.Wire.Control.Frame.{ControlMessage}
use quiche_moq.Wire.Control.Frame
use quiche_moq.Wire.Control.Frame.InOrder.{message_limit}
use quiche_moq.Wire.Control.Frame.RoundTrip.{CodesBelow, message_codes}
use quiche_moq.Wire.Parameters.RoundTrip.{AreEncodable}
use quiche_moq.Wire.Parameters.RoundTrip as Parameters
use quiche_moq.Wire.Control.ClientSetup.{ClientSetupMessage}
use quiche_moq.Wire.Control.Subscribe.RoundTrip as SubscribeRoundTrip
use quiche_moq.Wire.Control.SubscribeOk.RoundTrip as SubscribeOkRoundTrip
use quiche_moq.Wire.Control.Subscribe
use quiche_moq.Wire.Control.ClientSetup
use quiche_moq.Wire.Control.ServerSetup
use quiche_moq.Wire.Control.SubscribeOk
use quiche_moq.Wire.Control.RequestsBlocked
use quiche_moq.Wire.Control.PublishDone
use quiche_moq.Wire.Control.RequestError
use quiche_moq.Wire.Control.PublishNamespace
use quiche_moq.Wire.Control.PublishNamespaceDone
use quiche_moq.Wire.Control.RequestOk
use quiche_moq.Wire.Control.UnsubscribeNamespace
use quiche_moq.Wire.Control.TrackStatus
use quiche_moq.Wire.Control.PublishOk
use quiche_moq.Wire.Control.Enum.{
  subscribe, client_setup, server_setup, subscribe_ok, requests_blocked, publish_done,
  request_error, publish_namespace, publish_namespace_done, request_ok, unsubscribe_namespace,
  track_status, publish_ok, ControlMessageEnum, from_bytes, from_id, to_bytes,
}

module _ ⦃o : Octets⦄ (version : Version) where
  module _ {A : Type 0} (m : ControlMessage A) (variant : A → ControlMessageEnum) (a b : A) where
    dispatch :
        (ty : ℕ)
        → IsVarint ty
        → from_id version ty ≡ (Frame.from_bytes m version >>= λ x. pure (variant x))
        → CodesBelow message_limit
            (o.varint ty)
            (Frame.to_bytes m version a)
            (Frame.from_bytes m version)
            b
        → CodesBelow message_limit
            (o.varint ty)
            (Frame.to_bytes m version a)
            (from_bytes version)
            (variant b)
    unfolding from_bytes ◌>>=◌
    dispatch ty t e c = record {
      bytes = c.bytes;
      fronts = c.fronts;
      puts = c.puts;
      gets = λ h r.
          let (rest, f) = c.fronts h in
          let seen : peek_varint (c.bytes ++ r) ≡ ok (ty, c.bytes ++ r) =
            rw (f, append_assoc (o.varint ty) rest r) (peek_varint_lem ty (rest ++ r) t) in
          rw (seen, e, c.gets h r);
      cuts = λ h r cut.
          let (rest, f) = c.fronts h in
          elim (Cut-append r (o.varint ty) rest (rw f at cut)) [
            | inl part ↦ rw (peek_varint-Cut ty r t part)
            | inr (u, split, part) ↦
                let seen : peek_varint r ≡ ok (ty, r) = rw split (peek_varint_lem ty u t) in
                rw (seen, e, c.cuts h r cut)
          ];
    }

    send :
        (ty : ℕ)
        → m.message_id_for_version version ≡ ok ty
        → IsDraft version
        → IsVarint ty
        → from_id version ty ≡ (Frame.from_bytes m version >>= λ x. pure (variant x))
        → Codes (m.to_body_bytes version a) (m.from_body_bytes version) b
        → CodesBelow message_limit
            (o.varint ty)
            (Frame.to_bytes m version a)
            (from_bytes version)
            (variant b)
    send ty id d t e c = dispatch ty t e (message_codes version m a b ty id d t c)

  -- The id that a message is written under.
  unfoldable pub id_of : ControlMessageEnum → ℕ
  id_of (subscribe m) = 0x03
  id_of (client_setup m) = if leb version draft_10 then 0x40 else 0x20
  id_of (server_setup m) = if leb version draft_10 then 0x41 else 0x21
  id_of (subscribe_ok m) = 0x04
  id_of (requests_blocked m) = 0x1a
  id_of (publish_done m) = 0x0b
  id_of (request_error m) = 0x05
  id_of (publish_namespace m) = 0x06
  id_of (publish_namespace_done m) = 0x09
  id_of (request_ok m) = 0x07
  id_of (unsubscribe_namespace m) = 0x14
  id_of (track_status m) = 0x0d
  id_of (publish_ok m) = 0x1e

  -- Messages that can be written and, when some of their bytes are there only, be waited for:
  -- SERVER_SETUP panics on the first and UNSUBSCRIBE_NAMESPACE is not written at all.
  abbrev pub IsEncodable : ControlMessageEnum → Type 0
  IsEncodable (subscribe m) = SubscribeRoundTrip.IsEncodable version m
  IsEncodable (client_setup m) = ClientSetup.IsSent version m
  IsEncodable (server_setup m) = ⊥
  IsEncodable (subscribe_ok m) =
      IsVarint m.request_id
      × (version ≤ draft_11 → IsAbsent m.track_alias)
      × (draft_11 < version → HasVarint m.track_alias)
      × SubscribeOkRoundTrip.IsSendable version m.parameters
  IsEncodable (requests_blocked m) = IsVarint m.maximum_request_id
  IsEncodable (publish_done m) = PublishDone.IsEncodable m
  IsEncodable (request_error m) = (version ≤ draft_13) × RequestError.IsEncodable version m
  IsEncodable (publish_namespace m) = PublishNamespace.IsEncodable version m
  IsEncodable (publish_namespace_done m) = PublishNamespaceDone.IsEncodable version m
  IsEncodable (request_ok m) = (version ≤ draft_13) × RequestOk.IsEncodable version m
  IsEncodable (unsubscribe_namespace m) = ⊥
  IsEncodable (track_status m) = TrackStatus.IsEncodable m
  IsEncodable (publish_ok m) = AreEncodable version m.parameters

  -- What the reader makes of a message: parameters as Parameters.RoundTrip says, and the request id
  -- of PUBLISH_OK modulo 2^16.
  unfoldable pub received : ControlMessageEnum → ControlMessageEnum
  received (subscribe m) =
      subscribe (record m { parameters = Parameters.received version m.parameters })
  received (client_setup m) = client_setup m
  received (server_setup m) = server_setup m
  received (subscribe_ok m) = subscribe_ok (record m {
    parameters = record m.parameters {
      extra_parameters = Parameters.received version m.parameters.extra_parameters;
    };
  })
  received (requests_blocked m) = requests_blocked m
  received (publish_done m) = publish_done m
  received (request_error m) = request_error m
  received (publish_namespace m) =
      publish_namespace (record m { parameters = Parameters.received version m.parameters })
  received (publish_namespace_done m) = publish_namespace_done m
  received (request_ok m) = request_ok m
  received (unsubscribe_namespace m) = unsubscribe_namespace m
  received (track_status m) = track_status m
  received (publish_ok m) = publish_ok (record {
    request_id = m.request_id % 2 ^ 16;
    parameters = Parameters.received version m.parameters;
  })

  client_setup_sent :
      (m : ClientSetupMessage)
      → IsDraft version
      → ClientSetup.IsSent version m
      → CodesBelow message_limit
          (o.varint (id_of (client_setup m)))
          (to_bytes version (client_setup m))
          (from_bytes version)
          (client_setup m)
  unfolding to_bytes id_of ClientSetup.message ClientSetup.message_id_for_version ◌>>=◌
      Subscribe.message
  client_setup_sent m d v = elim (Bool-cases (leb version draft_10)) [
    | inl e ↦ rw e (
        send ClientSetup.message client_setup m m 0x40
          (rw (between-true draft_07 draft_10 version d.0 (leb→le _ _ e))) d (omega arith)
          (unfold from_id in refl) (ClientSetup.client_setup_codes version m d v))
    | inr e ↦ rw e (
        send ClientSetup.message client_setup m m 0x20
          (rw (
            between-false draft_07 draft_10 version (leb→lt _ _ e),
            between-true draft_11 draft_16 version (omega (arith, leb→lt _ _ e)) d.1,
          ))
          d (omega arith) (unfold from_id in refl) (ClientSetup.client_setup_codes version m d v))
  ]

  -- In every draft from 07 to 16, a control message that satisfies IsEncodable (fields that fit a
  -- varint, the optional fields that the draft has, valid names; RequestError and RequestOk up to
  -- draft 13 only; not ServerSetup and not UnsubscribeNamespace) and whose frame is shorter than
  -- 2^14 bytes is written by to_bytes as some bytes that begin with its id, or fails for want of
  -- room, in a buffer with fewer than 2^14 bytes left; from_bytes dispatches those bytes to the
  -- same constructor and returns the message as received says, whatever follows; and it answers
  -- buffer_too_short for each proper prefix of them.
  pub control_message_codes :
      (e : ControlMessageEnum)
      → IsDraft version
      → IsEncodable e
      → CodesBelow message_limit
          (o.varint (id_of e))
          (to_bytes version e)
          (from_bytes version)
          (received e)
  unfolding to_bytes id_of received from_id Subscribe.message SubscribeOk.message
      ClientSetup.message ServerSetup.message RequestsBlocked.message PublishDone.message
      RequestError.message PublishNamespace.message PublishNamespaceDone.message RequestOk.message
      UnsubscribeNamespace.message TrackStatus.message PublishOk.message
  control_message_codes (subscribe m) d v =
      send Subscribe.message subscribe m
        (record m { parameters = Parameters.received version m.parameters }) 0x03 refl d
        (omega arith) refl (SubscribeRoundTrip.subscribe_codes version m d v)
  control_message_codes (client_setup m) d v = client_setup_sent m d v
  control_message_codes (server_setup m) d v = absurd v
  control_message_codes (subscribe_ok m) d v =
      send SubscribeOk.message subscribe_ok m _ 0x04 refl d (omega arith) refl
        (SubscribeOkRoundTrip.subscribe_ok_codes version m d v.0 v.1 v.2 v.3)
  control_message_codes (requests_blocked m) d v =
      send RequestsBlocked.message requests_blocked m m 0x1a refl d (omega arith) refl
        (RequestsBlocked.codes version m v)
  control_message_codes (publish_done m) d v =
      send PublishDone.message publish_done m m 0x0b refl d (omega arith) refl
        (PublishDone.codes version m v)
  control_message_codes (request_error m) d v =
      send RequestError.message request_error m m 0x05 refl d (omega arith) refl
        (RequestError.request_error_codes version m d.0 v.0 v.1)
  control_message_codes (publish_namespace m) d v =
      send PublishNamespace.message publish_namespace m
        (record m { parameters = Parameters.received version m.parameters }) 0x06 refl d
        (omega arith) refl (PublishNamespace.publish_namespace_codes version m d v)
  control_message_codes (publish_namespace_done m) d v =
      send PublishNamespaceDone.message publish_namespace_done m m 0x09 refl d (omega arith) refl
        (PublishNamespaceDone.publish_namespace_done_codes version m d.0 v)
  control_message_codes (request_ok m) d v =
      send RequestOk.message request_ok m m 0x07 refl d (omega arith) refl
        (RequestOk.request_ok_codes version m d.0 v.0 v.1)
  control_message_codes (unsubscribe_namespace m) d v = absurd v
  control_message_codes (track_status m) d v =
      send TrackStatus.message track_status m m 0x0d refl d (omega arith) refl
        (TrackStatus.codes version m v)
  control_message_codes (publish_ok m) d v =
      send PublishOk.message publish_ok m _ 0x1e refl d (omega arith) refl
        (PublishOk.publish_ok_codes version m d v)

  -- Where the first number of a control message, below 2^62, is none of the ids of the thirteen
  -- kinds of message, from_bytes answers protocol_violation, in every version and whatever follows.
  pub unknown_id :
      (ty : ℕ) (r : Reader)
      → IsVarint ty
      → contains
          (0x03 ∷ 0x40 ∷ 0x20 ∷ 0x41 ∷ 0x21 ∷ 0x04 ∷ 0x1a ∷ 0x0b ∷ 0x05 ∷ 0x06 ∷ 0x09 ∷ 0x07 ∷ 0x14
            ∷ 0x0d ∷ 0x1e ∷ [])
          ty
        ≡ false
      → from_bytes version (o.varint ty ++ r) ≡ err protocol_violation
  unfolding from_bytes from_id ◌>>=◌ Subscribe.message SubscribeOk.message ClientSetup.message
      ServerSetup.message RequestsBlocked.message PublishDone.message RequestError.message
      PublishNamespace.message PublishNamespaceDone.message RequestOk.message
      UnsubscribeNamespace.message TrackStatus.message PublishOk.message
  unknown_id ty r t h = rw (peek_varint_lem ty r t) (ground arith)
