-- ===== src/Wire/Control/UnsubscribeNamespace.antt =====
-- quiche_moq_wire/src/control_message/unsubscribe_namespace.rs: both bodies are `todo!()`.
use quiche_moq.Common.{[], ◌∷◌}
use quiche_moq.Octets.{M, Reader, Writer, ok, panics}
use quiche_moq.Wire.Version.{Version}
use quiche_moq.Wire.Control.Frame.{ControlMessage}

pub record UnsubscribeNamespaceMessage : Type 0 where

unfoldable pub to_body_bytes : Version → UnsubscribeNamespaceMessage → M Writer (Unit {0})
to_body_bytes version m = panics

unfoldable pub from_body_bytes : Version → M Reader UnsubscribeNamespaceMessage
from_body_bytes version = panics

unfoldable pub message : ControlMessage UnsubscribeNamespaceMessage
message = record {
  message_ids = 0x14 ∷ [];
  message_id_for_version = λ version. ok 0x14;
  to_body_bytes = to_body_bytes;
  from_body_bytes = from_body_bytes;
}
