-- ===== src/Wire/Control/PublishOk.antt =====
-- quiche_moq_wire/src/control_message/publish_ok.rs: the request id is two bytes wide, `as u16`.
use quiche_moq.Common.{[], ℕ, ◌%◌, ◌^◌, ◌∷◌}
use quiche_moq.Octets.{M, Octets, Reader, Writer, ok, pure, ◌>>=◌, ◌>>◌}
use quiche_moq.Octets.Codec.{Codes, last, seq}
use quiche_moq.Octets.Fields.{u16_codes}
use quiche_moq.Wire.Version.{IsDraft, Version}
use quiche_moq.Wire.Control.Frame.{ControlMessage}
use quiche_moq.Wire.Parameters.{Parameters}
use quiche_moq.Wire.Parameters
use quiche_moq.Wire.Parameters.RoundTrip.{AreEncodable, received}
use quiche_moq.Wire.Parameters.RoundTrip as Received

pub record PublishOkMessage : Type 0 where
  pub request_id : ℕ
  pub parameters : Parameters

module _ ⦃o : Octets⦄ where
  unfoldable pub to_body_bytes : Version → PublishOkMessage → M Writer (Unit {0})
  to_body_bytes version m = do
    o.put_u16 (m.request_id % 2 ^ 16)
    Parameters.to_bytes version m.parameters

  unfoldable pub from_body_bytes : Version → M Reader PublishOkMessage
  from_body_bytes version = do
    request_id ← o.get_u16
    parameters ← Parameters.from_bytes version
    pure (record { request_id = request_id; parameters = parameters })

  unfoldable pub message : ControlMessage PublishOkMessage
  message = record {
    message_ids = 0x1e ∷ [];
    message_id_for_version = λ version. ok 0x1e;
    to_body_bytes = to_body_bytes;
    from_body_bytes = from_body_bytes;
  }

  -- In every draft from 07 to 16, a PUBLISH_OK whose parameters can be encoded is read back with
  -- its request id modulo 2^16 and its parameters as received says; a proper prefix is answered by
  -- buffer_too_short.
  pub publish_ok_codes :
      (version : Version) (m : PublishOkMessage)
      → IsDraft version
      → AreEncodable version m.parameters
      → Codes (to_body_bytes version m) (from_body_bytes version) (record {
        request_id = m.request_id % 2 ^ 16;
        parameters = received version m.parameters;
      })
  unfolding to_body_bytes from_body_bytes
  publish_ok_codes version m d v =
      seq _ (u16_codes (m.request_id % 2 ^ 16))
        (last _ (Received.parameters_codes version m.parameters d v))
