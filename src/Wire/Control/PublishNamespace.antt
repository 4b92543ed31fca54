-- ===== src/Wire/Control/PublishNamespace.antt =====
-- quiche_moq_wire/src/control_message/publish_namespace.rs
use quiche_moq.Common.{Option, [], arith, if◌then◌else◌, none, some, ℕ, ◌<◌, ◌∷◌, ◌≤◌}
use quiche_moq.Octets.{M, Octets, Reader, Writer, ok, panics, pure, ◌>>=◌, ◌>>◌}
use quiche_moq.Octets.Codec.{Codes, last, put_unwrapped, seq}
use quiche_moq.Octets.Fields.{HasVarint, IsAbsent, absent_codes, varint_field}
use quiche_moq.Wire.Version.{
  IsDraft, Version, between, draft_07, draft_10, draft_11, draft_16, ranges,
}
use quiche_moq.Wire.Control.Frame.{ControlMessage}
use quiche_moq.Wire.Parameters.{Parameters}
use quiche_moq.Wire.Parameters
use quiche_moq.Wire.Parameters.RoundTrip.{AreEncodable, received}
use quiche_moq.Wire.Parameters.RoundTrip as Received
use quiche_moq.Wire.Namespace.{Namespace}
use quiche_moq.Wire.Namespace
use quiche_moq.Wire.Tuple.RoundTrip as Tuple

pub record PublishNamespaceMessage : Type 0 where
  pub request_id : Option ℕ
  pub track_namespace : Namespace
  pub parameters : Parameters

pub record IsEncodable (version : Version) (m : PublishNamespaceMessage) : Type 0 where
  pub old : version ≤ draft_10 → IsAbsent m.request_id
  pub new : draft_10 < version → HasVarint m.request_id
  pub namespace : Tuple.IsEncodable m.track_namespace
  pub pairs : AreEncodable version m.parameters

module _ ⦃o : Octets⦄ where
  unfoldable pub put_request_id : Version → Option ℕ → M Writer (Unit {0})
  put_request_id version request_id =
      if between draft_07 draft_10 version
      then pure tt
      else if between draft_11 draft_16 version
      then put_unwrapped o.put_varint request_id
      else panics

  unfoldable pub to_body_bytes : Version → PublishNamespaceMessage → M Writer (Unit {0})
  unfolding put_request_id
  to_body_bytes version m = do
    put_request_id version m.request_id
    Namespace.to_bytes m.track_namespace
    Parameters.to_bytes version m.parameters

  unfoldable pub get_request_id : Version → M Reader (Option ℕ)
  get_request_id version =
      if between draft_07 draft_10 version
      then pure none
      else if between draft_11 draft_16 version
      then (do request_id ← o.get_varint; pure (some request_id))
      else panics

  unfoldable pub from_body_bytes : Version → M Reader PublishNamespaceMessage
  unfolding get_request_id
  from_body_bytes version = do
    request_id ← get_request_id version
    track_namespace ← Namespace.from_bytes
    parameters ← Parameters.from_bytes version
    pure (record {
      request_id = request_id;
      track_namespace = track_namespace;
      parameters = parameters;
    })

  unfoldable pub message : ControlMessage PublishNamespaceMessage
  message = record {
    message_ids = 0x06 ∷ [];
    message_id_for_version = λ version. ok 0x06;
    to_body_bytes = to_body_bytes;
    from_body_bytes = from_body_bytes;
  }

  pub publish_namespace_codes :
      (version : Version) (m : PublishNamespaceMessage)
      → IsDraft version
      → IsEncodable version m
      → Codes
          (to_body_bytes version m)
          (from_body_bytes version)
          (record m { parameters = received version m.parameters })
  unfolding to_body_bytes from_body_bytes put_request_id get_request_id
  publish_namespace_codes version m d v =
      seq _
        (ranges draft_07 draft_10 draft_11 draft_16 version d.0 d.1 (omega arith)
          (λ h. absent_codes m.request_id (v.old h)) (λ h. varint_field m.request_id (v.new h)))
        (seq _ (Namespace.codes m.track_namespace v.namespace)
          (last _ (Received.parameters_codes version m.parameters d v.pairs)))
