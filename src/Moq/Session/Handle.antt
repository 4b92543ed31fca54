-- ===== src/Moq/Session/Handle.antt =====
-- quiche_moq/src/session.rs: what `poll` does with a control message.
use quiche_moq.Common.{
  Bool, Option, [], bytes_eq, contains, false, if◌then◌else◌, leb, none, not, some, true, ℕ, ◌%◌,
  ◌&&◌, ◌+◌, ◌==◌, ◌^◌, ◌∷◌,
}
use quiche_moq.Common.Map.{get, insert, modify, remove, retain}
use quiche_moq.Octets.{Octets}
use quiche_moq.Wire.Version.{Version, between, draft_07, draft_11, draft_12, draft_16}
use quiche_moq.Wire.Namespace.{Namespace}
use quiche_moq.Wire.Control.Enum.{ControlMessageEnum}
use quiche_moq.Wire.Control.Enum
use quiche_moq.Wire.Control.SubscribeOk.{SubscribeOkMessage}
use quiche_moq.Wire.Control.RequestError.{RequestErrorMessage}
use quiche_moq.Wire.Control.ClientSetup.{ClientSetupMessage}
use quiche_moq.Wire.Control.ServerSetup.{ServerSetupMessage}
use quiche_moq.Wire.Control.PublishDone.{PublishDoneMessage}
use quiche_moq.Wire.Control.PublishNamespace.{PublishNamespaceMessage}
use quiche_moq.Webtransport.{Transport}
use quiche_moq.Moq.Action.{Action, unwrap, panics, pure, assert, ◌>>=◌, ◌>>◌}
use quiche_moq.Moq.InTrack.{InTrack, mark_done, mark_stream_readable}
use quiche_moq.Moq.InTrack
use quiche_moq.Moq.Session.{
  PendingSubscribe, Session, accepted, rejected, self, send_control_message, setup_parameters,
  update,
}

-- `==` on `Namespace`
unfoldable pub namespace_eq : Namespace → Namespace → Bool
namespace_eq [] [] = true
namespace_eq (x ∷ xs) (y ∷ ys) = bytes_eq x y && namespace_eq xs ys
namespace_eq _ _ = false

unfoldable pub unwrap_or : {A : Type 0} → A → Option A → A
unwrap_or d none = d
unwrap_or d (some a) = a

unfoldable pub on_server_setup : ServerSetupMessage → Session → Session
unfolding unwrap_or
on_server_setup cm s = record s {
  selected_version = some cm.selected_version;
  max_request_id = unwrap_or 0 cm.setup_parameters.max_request_id;
}

-- The alias of a track that is accepted, `none` where the code panics.
unfoldable pub alias_of : Option Version → PendingSubscribe → SubscribeOkMessage → Option ℕ
alias_of none req cm = none
alias_of (some version) req cm =
    if between draft_07 draft_11 version
    then req.track_alias
    else if between draft_12 draft_16 version
    then cm.track_alias
    else none

-- `pending_streams.remove(&track_alias)` and the new track, where the stream is readable.
unfoldable pub adopt : ℕ → InTrack → Option ℕ → InTrack
adopt track_alias track none = track
adopt track_alias track (some stream_id) = mark_stream_readable stream_id track

unfoldable pub on_accepted : ℕ → ℕ → SubscribeOkMessage → Session → Session
unfolding adopt
on_accepted request_id track_alias cm s = record s {
  pending_subscribe = remove request_id s.pending_subscribe;
  in_tracks =
      insert track_alias
        (adopt track_alias (InTrack.new track_alias) (get s.pending_streams track_alias))
        s.in_tracks;
  pending_streams = remove track_alias s.pending_streams;
  active_subscriptions = insert request_id track_alias s.active_subscriptions;
  pending_subscribe_responses =
      insert request_id (accepted track_alias cm) s.pending_subscribe_responses;
}

unfoldable pub on_rejected : RequestErrorMessage → Session → Session
on_rejected cm s = record s {
  pending_subscribe = remove cm.request_id s.pending_subscribe;
  pending_subscribe_responses = insert cm.request_id (rejected cm) s.pending_subscribe_responses;
}

unfoldable pub on_publish_done : PublishDoneMessage → Session → Session
on_publish_done cm s = elim (get s.active_subscriptions cm.request_id) [
  | none ↦ s
  | some track_alias ↦ record s {
    in_tracks = modify track_alias (mark_done cm.stream_count) s.in_tracks;
  }
]

unfoldable pub on_publish_namespace : ℕ → PublishNamespaceMessage → Session → Session
on_publish_namespace request_id cm s = record s {
  next_expected_request_id = (s.next_expected_request_id + 2) % 2 ^ 64;
  pending_received_publish_namespace = insert request_id cm s.pending_received_publish_namespace;
}

unfoldable pub on_client_setup : ClientSetupMessage → Session → Session
unfolding unwrap_or
on_client_setup cm s = record s {
  selected_version = some s.config.setup_version;
  max_request_id = unwrap_or 0 cm.setup_parameters.max_request_id;
}

unfoldable pub on_namespace_done : Option ℕ → Option Namespace → Session → Session
unfolding namespace_eq
on_namespace_done (some request_id) none s = record s {
  received_namespaces = remove request_id s.received_namespaces;
}
on_namespace_done none (some ns) s = record s {
  received_namespaces = retain (λ k v. not (namespace_eq v ns)) s.received_namespaces;
}
on_namespace_done none none s = s
on_namespace_done (some request_id) (some ns) s = s

unfoldable pub on_publish_ok : ℕ → PublishNamespaceMessage → Session → Session
on_publish_ok request_id pom s = record s {
  pending_sent_publish_namespace = remove request_id s.pending_sent_publish_namespace;
  sent_namespaces = insert request_id pom.track_namespace s.sent_namespaces;
}

module _ {S : Type 0} (wt : Transport S) ⦃o : Octets⦄ where
  -- The `match cm`.
  unfoldable pub handle : ControlMessageEnum → Action (Session × S) (Unit {0})
  unfolding on_server_setup alias_of on_accepted on_rejected on_publish_done on_publish_namespace
      on_client_setup on_namespace_done on_publish_ok
  handle (Enum.server_setup cm) = do s ← self; assert (not s.server); update (on_server_setup cm)
  handle (Enum.requests_blocked cm) = pure tt
  handle (Enum.subscribe_ok cm) = do
    s ← self
    req ← unwrap (get s.pending_subscribe cm.request_id)
    track_alias ← unwrap (alias_of s.selected_version req cm)
    update (on_accepted cm.request_id track_alias cm)
  handle (Enum.request_error cm) = do
    s ← self
    req ← unwrap (get s.pending_subscribe cm.request_id)
    update (on_rejected cm)
  handle (Enum.publish_done cm) = update (on_publish_done cm)
  handle (Enum.publish_namespace cm) = do
    s ← self
    request_id ← unwrap cm.request_id
    assert (leb request_id s.out_max_request_id)
    assert (request_id == s.next_expected_request_id)
    update (on_publish_namespace request_id cm)
  handle (Enum.client_setup cm) = do
    s ← self
    assert s.server
    assert (contains cm.supported_versions s.config.setup_version)
    update (on_client_setup cm)
    send_control_message wt (
        Enum.server_setup (record {
          selected_version = s.config.setup_version;
          setup_parameters = setup_parameters s.out_max_request_id;
        }))
  handle (Enum.subscribe cm) = update (λ s. record s {
    pending_received_subscriptions = insert cm.request_id cm s.pending_received_subscriptions;
  })
  handle (Enum.request_ok cm) = pure tt
  handle (Enum.publish_namespace_done cm) = update (on_namespace_done cm.request_id cm.namespace)
  handle (Enum.publish_ok cm) = do
    s ← self
    pom ← unwrap (get s.pending_sent_publish_namespace cm.request_id)
    update (on_publish_ok cm.request_id pom)
  handle (Enum.unsubscribe_namespace cm) = panics
  handle (Enum.track_status cm) = panics
