-- ===== src/Wire/Control/RequestOk.antt =====
-- quiche_moq_wire/src/control_message/request_ok.rs: implemented up to draft 13.
use quiche_moq.Common.{Option, [], arith, if◌then◌else◌, none, some, ℕ, ◌<◌, ◌∷◌, ◌≤◌}
use quiche_moq.Octets.{M, Octets, Reader, Writer, ok, panics, pure, ◌>>=◌}
use quiche_moq.Octets.Codec.{Codes, last, put_unwrapped}
use quiche_moq.Octets.Fields.{Has, HasVarint, IsAbsent, varint_codes}
use quiche_moq.Wire.Version.{Version, between, draft_07, draft_10, draft_11, draft_13, ranges}
use quiche_moq.Wire.Control.Frame.{ControlMessage}
use quiche_moq.Wire.Namespace.{Namespace}
use quiche_moq.Wire.Namespace
use quiche_moq.Wire.Tuple.RoundTrip as Tuple

pub record RequestOkMessage : Type 0 where
  pub request_id : Option ℕ
  pub track_namespace : Option Namespace

pub record IsEncodable (version : Version) (m : RequestOkMessage) : Type 0 where
  pub old : version ≤ draft_10 → IsAbsent m.request_id × Has Tuple.IsEncodable m.track_namespace
  pub new : draft_10 < version → HasVarint m.request_id × IsAbsent m.track_namespace

module _ ⦃o : Octets⦄ where
  unfoldable pub to_body_bytes : Version → RequestOkMessage → M Writer (Unit {0})
  to_body_bytes version m =
      if between draft_07 draft_10 version
      then put_unwrapped Namespace.to_bytes m.track_namespace
      else if between draft_11 draft_13 version
      then put_unwrapped o.put_varint m.request_id
      else panics

  unfoldable pub from_body_bytes : Version → M Reader RequestOkMessage
  from_body_bytes version =
      if between draft_07 draft_10 version
      then (do
        track_namespace ← Namespace.from_bytes
        pure (record { track_namespace = some track_namespace; request_id = none }))
      else if between draft_11 draft_13 version
      then (do
        request_id ← o.get_varint
        pure (record { request_id = some request_id; track_namespace = none }))
      else panics

  unfoldable pub message : ControlMessage RequestOkMessage
  message = record {
    message_ids = 0x07 ∷ [];
    message_id_for_version = λ version. ok 0x07;
    to_body_bytes = to_body_bytes;
    from_body_bytes = from_body_bytes;
  }

  old_codes :
      (request_id : Option ℕ) (track_namespace : Option Namespace)
      → IsAbsent request_id × Has Tuple.IsEncodable track_namespace
      → Codes {A = RequestOkMessage}
          (put_unwrapped Namespace.to_bytes track_namespace)
          (Namespace.from_bytes >>= λ n.
            pure (record { request_id = none; track_namespace = some n }))
          (record { request_id = request_id; track_namespace = track_namespace })
  unfolding put_unwrapped
  old_codes none (some n) (h, k) = last _ (Namespace.codes n k)
  old_codes none none (h, k) = absurd k
  old_codes (some r) n (h, k) = absurd h

  new_codes :
      (request_id : Option ℕ) (track_namespace : Option Namespace)
      → HasVarint request_id × IsAbsent track_namespace
      → Codes {A = RequestOkMessage}
          (put_unwrapped o.put_varint request_id)
          (o.get_varint >>= λ r. pure (record { request_id = some r; track_namespace = none }))
          (record { request_id = request_id; track_namespace = track_namespace })
  unfolding put_unwrapped
  new_codes (some r) none (h, k) = last _ (varint_codes r h)
  new_codes none n (h, k) = absurd h
  new_codes (some r) (some n) (h, k) = absurd k

  pub request_ok_codes :
      (version : Version) (m : RequestOkMessage)
      → draft_07 ≤ version
      → version ≤ draft_13
      → IsEncodable version m
      → Codes (to_body_bytes version m) (from_body_bytes version) m
  unfolding to_body_bytes from_body_bytes
  request_ok_codes version m l u v =
      ranges draft_07 draft_10 draft_11 draft_13 version l u (omega arith)
        (λ h. old_codes m.request_id m.track_namespace (v.old h))
        (λ h. new_codes m.request_id m.track_namespace (v.new h))
