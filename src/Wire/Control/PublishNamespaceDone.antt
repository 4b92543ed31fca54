-- ===== src/Wire/Control/PublishNamespaceDone.antt =====
-- quiche_moq_wire/src/control_message/publish_namespace_done.rs
use quiche_moq.Common.{
  Bool-cases, Option, [], arith, if◌then◌else◌, inl, inr, leb, leb→le, leb→lt, le→leb, none, some,
  ℕ, ◌<◌, ◌∷◌, ◌≤◌,
}
use quiche_moq.Octets.{M, Octets, Reader, Writer, ok, panics, pure, ◌>>=◌}
use quiche_moq.Octets.Codec.{Codes, last, put_unwrapped}
use quiche_moq.Octets.Fields.{Has, HasVarint, IsAbsent, varint_codes}
use quiche_moq.Wire.Version.{
  Version, between, between-false, between-true, draft_07, draft_15, draft_16,
}
use quiche_moq.Wire.Control.Frame.{ControlMessage}
use quiche_moq.Wire.Namespace.{Namespace}
use quiche_moq.Wire.Namespace
use quiche_moq.Wire.Tuple.RoundTrip as Tuple

pub record PublishNamespaceDoneMessage : Type 0 where
  pub request_id : Option ℕ
  pub namespace : Option Namespace

pub record IsEncodable (version : Version) (m : PublishNamespaceDoneMessage) : Type 0 where
  pub old : version ≤ draft_15 → IsAbsent m.request_id × Has Tuple.IsEncodable m.namespace
  pub new : draft_15 < version → HasVarint m.request_id × IsAbsent m.namespace

module _ ⦃o : Octets⦄ where
  unfoldable pub to_body_bytes : Version → PublishNamespaceDoneMessage → M Writer (Unit {0})
  to_body_bytes version m =
      if between draft_07 draft_15 version
      then put_unwrapped Namespace.to_bytes m.namespace
      else if leb draft_16 version
      then put_unwrapped o.put_varint m.request_id
      else panics

  unfoldable pub from_body_bytes : Version → M Reader PublishNamespaceDoneMessage
  from_body_bytes version =
      if between draft_07 draft_15 version
      then (do
        namespace ← Namespace.from_bytes
        pure (record { request_id = none; namespace = some namespace }))
      else if leb draft_16 version
      then (do
        request_id ← o.get_varint
        pure (record { request_id = some request_id; namespace = none }))
      else panics

  unfoldable pub message : ControlMessage PublishNamespaceDoneMessage
  message = record {
    message_ids = 0x09 ∷ [];
    message_id_for_version = λ version. ok 0x09;
    to_body_bytes = to_body_bytes;
    from_body_bytes = from_body_bytes;
  }

  old_codes :
      (request_id : Option ℕ) (namespace : Option Namespace)
      → IsAbsent request_id × Has Tuple.IsEncodable namespace
      → Codes {A = PublishNamespaceDoneMessage}
          (put_unwrapped Namespace.to_bytes namespace)
          (Namespace.from_bytes >>= λ n. pure (record { request_id = none; namespace = some n }))
          (record { request_id = request_id; namespace = namespace })
  unfolding put_unwrapped
  old_codes none (some n) (h, k) = last _ (Namespace.codes n k)
  old_codes none none (h, k) = absurd k
  old_codes (some r) n (h, k) = absurd h

  new_codes :
      (request_id : Option ℕ) (namespace : Option Namespace)
      → HasVarint request_id × IsAbsent namespace
      → Codes {A = PublishNamespaceDoneMessage}
          (put_unwrapped o.put_varint request_id)
          (o.get_varint >>= λ r. pure (record { request_id = some r; namespace = none }))
          (record { request_id = request_id; namespace = namespace })
  unfolding put_unwrapped
  new_codes (some r) none (h, k) = last _ (varint_codes r h)
  new_codes none n (h, k) = absurd h
  new_codes (some r) (some n) (h, k) = absurd k

  pub publish_namespace_done_codes :
      (version : Version) (m : PublishNamespaceDoneMessage)
      → draft_07 ≤ version
      → IsEncodable version m
      → Codes (to_body_bytes version m) (from_body_bytes version) m
  unfolding to_body_bytes from_body_bytes
  publish_namespace_done_codes version m l v = elim (Bool-cases (leb version draft_15)) [
    | inl e ↦
        rw (between-true draft_07 draft_15 version l (leb→le _ _ e))
          (old_codes m.request_id m.namespace (v.old (leb→le _ _ e)))
    | inr e ↦
        rw
          (
            between-false draft_07 draft_15 version (leb→lt _ _ e),
            le→leb draft_16 version (omega (arith, leb→lt _ _ e)),
          )
          (new_codes m.request_id m.namespace (v.new (leb→lt _ _ e)))
  ]
