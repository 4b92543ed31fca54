-- ===== src/Moq/Session/Exchange.antt =====
-- A namespace is announced by one session and accepted by the other, over the bytes of the messages.
use quiche_moq.Common.{List, [], arith, refl, ℕ, ◌%◌, ◌<◌, ◌^◌, ◌≡◌, ◌≤◌}
use quiche_moq.Octets.{Octets}
use quiche_moq.Octets
use quiche_moq.Wire.Version.{Version, draft_11}
use quiche_moq.Wire.Namespace.{Namespace}
use quiche_moq.Wire.Tuple.RoundTrip as Tuple
use quiche_moq.Wire.Parameters.RoundTrip.{AreEncodable, received_none}
use quiche_moq.Wire.Control.Enum.{ControlMessageEnum}
use quiche_moq.Wire.Control.Enum
use quiche_moq.Wire.Control.Enum.RoundTrip.{received}
use quiche_moq.Wire.Control.PublishNamespace
use quiche_moq.Moq.Action.{ok}
use quiche_moq.Moq.Session.{Session}
use quiche_moq.Moq.Session.Requests.{announce_message, publish_namespace}

pub no_parameters : (version : Version) → AreEncodable version []
no_parameters version = record { each = tt; count = omega arith }

pub announcement-IsEncodable :
    (version id : ℕ) (ns : Namespace)
    → draft_11 ≤ version
    → id < 2 ^ 16
    → Tuple.IsEncodable ns
    → PublishNamespace.IsEncodable version (announce_message id ns)
unfolding announce_message
announcement-IsEncodable version id ns h k n = record {
  old = λ l. absurd (omega (arith, h, l));
  new = λ l. omega (arith, k);
  namespace = n;
  pairs = no_parameters version;
}

-- Neither message has parameters, and an id below 2^16 is left as it is.
pub announcement_received :
    ⦃o : Octets⦄ (version id : ℕ) (ns : Namespace)
    → received version (Enum.publish_namespace (announce_message id ns))
      ≡ Enum.publish_namespace (announce_message id ns)
unfolding received announce_message
announcement_received version id ns = rw (received_none version) refl

pub answer_received :
    ⦃o : Octets⦄ (version id : ℕ)
    → id < 2 ^ 16
    → received version (Enum.publish_ok (record { request_id = id; parameters = [] }))
      ≡ Enum.publish_ok (record { request_id = id; parameters = [] })
unfolding received
answer_received version id k =
    let same : id % 2 ^ 16 ≡ id = omega (arith, k) in rw (received_none version, same) refl

message_of : Octets.Result (ControlMessageEnum × List ℕ) → ControlMessageEnum → ControlMessageEnum
message_of r d = elim r [ Octets.ok (cm, rest) ↦ cm | _ ↦ d ]
