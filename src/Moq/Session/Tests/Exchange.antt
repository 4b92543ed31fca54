-- ===== src/Moq/Session/Tests/Exchange.antt =====
-- An announcement in draft 11, at concrete sessions and messages.
use quiche_moq.Common.{List, [], some, ℕ, ◌∷◌}
use quiche_moq.Common.Map.{insert, remove}
use quiche_moq.Octets
use quiche_moq.Octets.Rfc9000.{rfc9000}
use quiche_moq.Octets.Rfc9000
use quiche_moq.Octets.Cursor
use quiche_moq.Octets.Codec
use quiche_moq.Wire.Namespace.{Namespace}
use quiche_moq.Wire.Namespace
use quiche_moq.Wire.Tuple
use quiche_moq.Wire.Parameters
use quiche_moq.Wire.KeyValuePairs
use quiche_moq.Wire.Control.Enum
use quiche_moq.Wire.Control.Frame
use quiche_moq.Wire.Control.PublishNamespace
use quiche_moq.Wire.Control.PublishOk
use quiche_moq.Moq.Session.{Config, Session, send_all, send_control_message}
use quiche_moq.Moq.Session
use quiche_moq.Moq.Session.Handle.{on_publish_namespace}
use quiche_moq.Moq.Session.Requests.{announce_message, announced, publish_namespace}
use quiche_moq.Moq.Session.Tests.{ns, publisher, relay}
use quiche_moq.Wire.Version.{draft_11}
use quiche_moq.Wire.Control.Enum.{ControlMessageEnum}
use quiche_moq.Wire.Tuple.RoundTrip as TupleRoundTrip

abbrev publisher_11 : Session
publisher_11 = record publisher { selected_version = some draft_11 }

abbrev relay_11 : Session
relay_11 = record relay { selected_version = some draft_11 }

abbrev announcement : ControlMessageEnum
announcement = Enum.publish_namespace (announce_message 0 ns)

abbrev answer : ControlMessageEnum
answer = Enum.publish_ok (record { request_id = 0; parameters = [] })

abbrev announcing : Session × List ℕ
announcing = (announced ns publisher_11, 0x06 ∷ 0x00 ∷ 0x05 ∷ 0x00 ∷ 0x01 ∷ 0x01 ∷ 0x61 ∷ 0x00 ∷ [])

abbrev taking : Session × List ℕ
taking = (on_publish_namespace 0 (announce_message 0 ns) relay_11, [])

abbrev taken : Session × List ℕ
taken = (
  record (taking.0) {
    pending_received_publish_namespace = remove 0 taking.0.pending_received_publish_namespace;
    received_namespaces = insert 0 ns taking.0.received_namespaces;
  },
  0x1e ∷ 0x00 ∷ 0x03 ∷ 0x00 ∷ 0x00 ∷ 0x00 ∷ [],
)
