-- ===== src/Wire/Control/RequestsBlocked.antt =====
-- quiche_moq_wire/src/control_message/requests_blocked.rs
use quiche_moq.Common.{[], ℕ, ◌∷◌}
use quiche_moq.Octets.{M, Octets, Reader, Writer, ok, pure, ◌>>=◌}
use quiche_moq.Octets.Codec.{Codes, last}
use quiche_moq.Octets.Fields.{IsVarint, varint_codes}
use quiche_moq.Wire.Version.{Version}
use quiche_moq.Wire.Control.Frame.{ControlMessage}

pub record RequestsBlockedMessage : Type 0 where
  pub maximum_request_id : ℕ

module _ ⦃o : Octets⦄ where
  unfoldable pub to_body_bytes : Version → RequestsBlockedMessage → M Writer (Unit {0})
  to_body_bytes version m = o.put_varint m.maximum_request_id

  unfoldable pub from_body_bytes : Version → M Reader RequestsBlockedMessage
  from_body_bytes version = do
    maximum_request_id ← o.get_varint
    pure (record { maximum_request_id = maximum_request_id })

  unfoldable pub message : ControlMessage RequestsBlockedMessage
  message = record {
    message_ids = 0x1a ∷ [];
    message_id_for_version = λ version. ok 0x1a;
    to_body_bytes = to_body_bytes;
    from_body_bytes = from_body_bytes;
  }

  pub codes :
      (version : Version) (m : RequestsBlockedMessage)
      → IsVarint m.maximum_request_id
      → Codes (to_body_bytes version m) (from_body_bytes version) m
  unfolding to_body_bytes from_body_bytes
  codes version m h =
      last (λ x. record { maximum_request_id = x }) (varint_codes m.maximum_request_id h)
