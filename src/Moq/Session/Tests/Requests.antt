-- ===== src/Moq/Session/Tests/Requests.antt =====
-- Subscriptions and namespaces at concrete sessions and messages.
use quiche_moq.Common.{List, [], ap, contains, none, refl, some, true, ℕ, ◌++◌, ◌↔◌, ◌∷◌, ◌≡◌, ◌≤◌}
use quiche_moq.Common.Map.{Every, get}
use quiche_moq.Octets
use quiche_moq.Octets.Rfc9000.{rfc9000}
use quiche_moq.Octets.Rfc9000
use quiche_moq.Octets.Cursor
use quiche_moq.Octets.Codec
use quiche_moq.Wire.Version.{between, draft_07}
use quiche_moq.Wire.Namespace.{Namespace}
use quiche_moq.Wire.Namespace
use quiche_moq.Wire.Tuple
use quiche_moq.Wire.Parameters
use quiche_moq.Wire.Control.Enum
use quiche_moq.Wire.Control.FilterType
use quiche_moq.Wire.Control.Frame
use quiche_moq.Wire.Control.PublishNamespace
use quiche_moq.Wire.Control.PublishOk
use quiche_moq.Wire.Control.Subscribe
use quiche_moq.Wire.Control.SubscribeOk.{GroupOrder, SubscribeOkMessage}
use quiche_moq.Moq.Action.{after, ok, panicked, ◌>>◌}
use quiche_moq.Moq.InTrack.{InTrack}
use quiche_moq.Moq.OutStream.{in_buffer}
use quiche_moq.Moq.Session.{
  Config, Session, accepted, send_all, send_control_message, version_or_setup,
}
use quiche_moq.Moq.Session
use quiche_moq.Moq.Session.Announcing.{namespace_life, publish_after_subscribe, server_takes_one}
use quiche_moq.Moq.Session.Handle.{alias_of, handle}
use quiche_moq.Moq.Session.Reachable.{Reachable}
use quiche_moq.Moq.Session.Requests.{
  PublishStatus, announce_message, announced, is_blocked, poll_subscribe_response,
  publish_namespace, publish_namespace_done, publish_namespace_status, subscribe, subscribe_message,
  subscribed,
}
use quiche_moq.Moq.Session.Subscribing.{subscribe_completes}
use quiche_moq.Moq.Session.Tests.{
  config, ns, publisher, relay, relay_state, track_name, whole, whole_sends,
}

-- In draft 07 the id is not written.
namespace_bytes :
    (id : ℕ)
    → in_buffer (Enum.to_bytes draft_07 (Enum.publish_namespace (announce_message id ns)))
      ≡ Octets.ok (0x06 ∷ 0x40 ∷ 0x04 ∷ 0x01 ∷ 0x01 ∷ 0x61 ∷ 0x00 ∷ [])
unfolding in_buffer announce_message Enum.to_bytes Frame.to_bytes Octets.◌>>=◌
    PublishNamespace.message Octets.◌>>◌ Octets.emit Rfc9000.varint Cursor.off Rfc9000.skip
    PublishNamespace.to_body_bytes between Codec.for_each Parameters.to_bytes
    Frame.set_control_message_length Cursor.put_varint_with_len_at Rfc9000.split_at
    Rfc9000.varint_with_len Namespace.to_bytes Tuple.to_bytes
namespace_bytes id = refl

publish_ok_bytes :
    in_buffer
      (Enum.to_bytes draft_07 (Enum.publish_ok (record { request_id = 0; parameters = [] })))
    ≡ Octets.ok (0x1e ∷ 0x40 ∷ 0x03 ∷ 0x00 ∷ 0x00 ∷ 0x00 ∷ [])
unfolding in_buffer Enum.to_bytes Frame.to_bytes Octets.◌>>=◌ PublishOk.message Octets.◌>>◌
    Octets.emit Rfc9000.varint Cursor.off Rfc9000.skip PublishOk.to_body_bytes between
    Codec.for_each Parameters.to_bytes Frame.set_control_message_length
    Cursor.put_varint_with_len_at Rfc9000.split_at Rfc9000.varint_with_len
publish_ok_bytes = refl

subscribe_bytes :
    in_buffer (Enum.to_bytes draft_07 (Enum.subscribe (subscribe_message 0 track_name)))
    ≡ Octets.ok (
        0x03 ∷ 0x40 ∷ 0x0b ∷ 0x00 ∷ 0x00 ∷ 0x01 ∷ 0x01 ∷ 0x61 ∷ 0x01 ∷ 0x62 ∷ 0x01 ∷ 0x02 ∷ 0x01
        ∷ 0x00 ∷ [])
unfolding in_buffer subscribe_message Enum.to_bytes Frame.to_bytes Octets.◌>>=◌ Subscribe.message
    Octets.◌>>◌ Octets.emit Rfc9000.varint Cursor.off Rfc9000.skip Subscribe.to_body_bytes between
    Codec.put_unwrapped FilterType.to_bytes Codec.for_each Parameters.to_bytes
    Frame.set_control_message_length Cursor.put_varint_with_len_at Rfc9000.split_at
    Rfc9000.varint_with_len Namespace.to_bytes Tuple.to_bytes
subscribe_bytes = refl

nothing_sent : get publisher.sent_namespaces 0 ≡ none
unfolding Session.client Session.accept get
nothing_sent = refl

abbrev announcing : Session × List ℕ
announcing = (announced ns publisher, 0x06 ∷ 0x40 ∷ 0x04 ∷ 0x01 ∷ 0x01 ∷ 0x61 ∷ 0x00 ∷ [])

announcing_sent : publish_namespace whole ns (publisher, []) ≡ (announcing, ok 0)
unfolding publish_namespace Session.client version_or_setup
announcing_sent =
    ap (λ x. after x (λ u t. ((announced ns t.0, t.1), ok t.0.next_request_id)))
      (whole_sends (Enum.publish_namespace (announce_message 0 ns)) publisher [] _ refl
        (namespace_bytes 0))

namespace_life_example :
    (publish_namespace_status 0 announcing.0 ≡ PublishStatus.pending)
    × (v : Session × List ℕ) × (handle whole
          (Enum.publish_ok (record { request_id = 0; parameters = [] }))
          announcing
        ≡ (v, ok tt))
    × (publish_namespace_status 0 v.0 ≡ PublishStatus.accepted)
    × (publish_namespace_status 0 (publish_namespace_done whole 0 v).0.0 ≡ PublishStatus.unknown)
namespace_life_example =
    namespace_life whole ns (publisher, []) announcing 0 announcing_sent nothing_sent

server_takes_one_example :
    Every (λ id ns. id ≡ 0) relay_state.0.received_namespaces
    × ((id : ℕ) (ns : Namespace)
        → 1 ≤ id
        → (handle whole (Enum.publish_namespace (announce_message id ns)) relay_state).1 ≡ panicked)
unfolding Session.accept
server_takes_one_example = server_takes_one whole relay_state (Reachable.accepted 4 config []) refl

abbrev subscribing : Session × List ℕ
subscribing = (
  subscribed publisher,
  0x03 ∷ 0x40 ∷ 0x0b ∷ 0x00 ∷ 0x00 ∷ 0x01 ∷ 0x01 ∷ 0x61 ∷ 0x01 ∷ 0x62 ∷ 0x01 ∷ 0x02 ∷ 0x01 ∷ 0x00
      ∷ [],
)

subscribing_sent : subscribe whole track_name (publisher, []) ≡ (subscribing, ok 0)
unfolding subscribe Session.client version_or_setup is_blocked
subscribing_sent =
    ap (λ x. after x (λ u t. ((subscribed t.0, t.1), ok t.0.next_request_id)))
      (whole_sends (Enum.subscribe (subscribe_message 0 track_name)) publisher [] _ refl
        subscribe_bytes)

abbrev both : Session × List ℕ
both = (
  announced ns subscribing.0,
  subscribing.1 ++ (0x06 ∷ 0x40 ∷ 0x04 ∷ 0x01 ∷ 0x01 ∷ 0x61 ∷ 0x00 ∷ []),
)

both_sent : publish_namespace whole ns subscribing ≡ (both, ok 2)
unfolding publish_namespace Session.client version_or_setup subscribed
both_sent =
    ap (λ x. after x (λ u t. ((announced ns t.0, t.1), ok t.0.next_request_id)))
      (whole_sends (Enum.publish_namespace (announce_message 2 ns)) subscribing.0 subscribing.1 _
        refl (namespace_bytes 2))

publish_after_subscribe_example :
    ((handle whole (Enum.subscribe (subscribe_message 0 track_name))
        >> handle whole (Enum.publish_namespace (announce_message 2 ns)))
      (relay, [])).1
    ≡ panicked
unfolding Session.accept
publish_after_subscribe_example =
    publish_after_subscribe whole whole track_name ns (publisher, []) subscribing both (relay, []) 0
      2 subscribing_sent both_sent refl

abbrev answer : SubscribeOkMessage
answer = record {
  request_id = 0;
  track_alias = none;
  parameters = record {
    expires = 0;
    group_order = GroupOrder.ascending;
    largest_location = none;
    extra_parameters = [];
  };
}

subscribe_completes_example :
    (v : Session × List ℕ) × (handle whole (Enum.subscribe_ok answer) subscribing ≡ (v, ok tt))
    × (track : InTrack) × (get v.0.in_tracks 0 ≡ some track)
    × ((i : ℕ)
        → (contains track.readable_streams i ≡ true) ↔ (get publisher.pending_streams 0 ≡ some i))
    × (get v.0.pending_streams 0 ≡ none)
    × (get v.0.active_subscriptions 0 ≡ some 0)
    × (get v.0.pending_subscribe 0 ≡ none)
    × ((poll_subscribe_response 0 v.0).1 ≡ some (accepted 0 answer))
    × ((poll_subscribe_response 0 (poll_subscribe_response 0 v.0).0).1 ≡ none)
unfolding alias_of between
subscribe_completes_example =
    subscribe_completes whole track_name answer (publisher, []) subscribing 0 subscribing_sent refl
