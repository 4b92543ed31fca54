-- ===== src/Moq/Session/Requests.antt =====
-- quiche_moq/src/session.rs: subscriptions and namespaces, as the application asks for and answers
-- them.
use quiche_moq.Common.{
  Bool, Option, [], if◌then◌else◌, ltb, none, not, some, ℕ, ◌%◌, ◌&&◌, ◌+◌, ◌^◌, ◌∷◌,
}
use quiche_moq.Common.Map.{Map, contains_key, get, insert, remove}
use quiche_moq.Octets.{Octets, Result}
use quiche_moq.Octets
use quiche_moq.Wire.Version.{Version, between, draft_07, draft_11, draft_12, draft_16}
use quiche_moq.Wire.Location.{Location}
use quiche_moq.Wire.Namespace.{Namespace}
use quiche_moq.Wire.NamespaceTrackname.{NamespaceTrackname}
use quiche_moq.Wire.Control.Enum
use quiche_moq.Wire.Control.FilterType
use quiche_moq.Wire.Control.Subscribe.{SubscribeMessage}
use quiche_moq.Wire.Control.SubscribeOk.{SubscribeOkMessage}
use quiche_moq.Wire.Control.SubscribeOk
use quiche_moq.Wire.Control.RequestError.{RequestErrorMessage}
use quiche_moq.Wire.Control.PublishDone
use quiche_moq.Wire.Control.PublishNamespace.{PublishNamespaceMessage}
use quiche_moq.Webtransport.{Transport}
use quiche_moq.Moq.Error.{request_blocked}
use quiche_moq.Moq.Action.{Action, ok, err, unwrap, panics, pure, after, ◌>>=◌, ◌>>◌}
use quiche_moq.Moq.OutTrack
use quiche_moq.Moq.Session.{Response, Session, self, send_control_message, update}

unfoldable pub subscribe_message : ℕ → NamespaceTrackname → SubscribeMessage
subscribe_message request_id namespace_trackname = record {
  request_id = request_id;
  track_alias = some request_id;
  namespace_trackname = namespace_trackname;
  subscriber_priority = 1;
  group_order = 2;
  forward = some 0;
  filter_type = FilterType.next_group_start;
  start_location = none;
  end_group = none;
  parameters = [];
}

-- `next_request_id > max_request_id && !ignore_max_request_quota`
unfoldable pub is_blocked : Session → Bool
is_blocked s = ltb s.max_request_id s.next_request_id && not s.config.ignore_max_request_quota

unfoldable pub subscribed : Session → Session
subscribed s = record s {
  pending_subscribe =
      insert s.next_request_id (record { track_alias = some s.next_request_id })
        s.pending_subscribe;
  next_request_id = (s.next_request_id + 2) % 2 ^ 64;
}

unfoldable pub announce_message : ℕ → Namespace → PublishNamespaceMessage
announce_message request_id namespace = record {
  request_id = some request_id;
  track_namespace = namespace;
  parameters = [];
}

unfoldable pub announced : Namespace → Session → Session
unfolding announce_message
announced namespace s = record s {
  pending_sent_publish_namespace =
      insert s.next_request_id (announce_message s.next_request_id namespace)
        s.pending_sent_publish_namespace;
  next_request_id = (s.next_request_id + 2) % 2 ^ 64;
}

-- RequestErrorMessage::from
unfoldable pub request_error : SubscribeMessage → ℕ → RequestErrorMessage
request_error sm error_code = record {
  request_id = sm.request_id;
  error_code = error_code;
  error_reason = [];
  track_alias = sm.track_alias;
}

-- The alias that a subscription is answered with and whether it is sent, `none` where the code
-- panics.
unfoldable pub choose_alias :
    Option Version → SubscribeMessage → Session → Option (ℕ × Option ℕ × Session)
choose_alias none sm s = none
choose_alias (some version) sm s =
    if between draft_07 draft_11 version
    then elim sm.track_alias [ none ↦ none | some a ↦ some (a, none, s) ]
    else if between draft_12 draft_16 version
    then some (
      s.next_out_track_alias,
      some s.next_out_track_alias,
      record s { next_out_track_alias = (s.next_out_track_alias + 1) % 2 ^ 64 },
    )
    else none

-- `SubscribeOkMessage::from`, whose assertion may fail.
abbrev pub built : {T A : Type 0} → Result A → Action T A
built (Octets.ok a) = pure a
built (Octets.err e) = panics
built Octets.panic = panics

pub data PublishStatus : Type 0 where
  unknown pending accepted : PublishStatus

pub data SubscriptionRequestAction : Type 0 where
  keep accept : SubscriptionRequestAction
  reject : (error_code : ℕ) → SubscriptionRequestAction

unfoldable pub publish_namespace_status : ℕ → Session → PublishStatus
publish_namespace_status request_id s =
    if contains_key s.sent_namespaces request_id
    then PublishStatus.accepted
    else if contains_key s.pending_sent_publish_namespace request_id
    then pending
    else unknown

unfoldable pub poll_subscribe_response : ℕ → Session → Session × Option Response
poll_subscribe_response request_id s = (
  record s { pending_subscribe_responses = remove request_id s.pending_subscribe_responses },
  get s.pending_subscribe_responses request_id,
)

module _ {S : Type 0} (wt : Transport S) ⦃o : Octets⦄ where
  unfoldable pub subscribe : NamespaceTrackname → Action (Session × S) ℕ
  unfolding is_blocked subscribed
  subscribe namespace_trackname t =
      if is_blocked t.0
      then (t, err request_blocked)
      else after
          (send_control_message wt
            (Enum.subscribe (subscribe_message t.0.next_request_id namespace_trackname)) t)
          (λ u t. ((subscribed t.0, t.1), ok t.0.next_request_id))

  -- `_accept_subscription`
  unfoldable pub accept_message : Option Location → SubscribeMessage → Action (Session × S) ℕ
  unfolding choose_alias
  accept_message largest_location sm = do
    s ← self
    chosen ← unwrap (choose_alias s.selected_version sm s)
    cm ← built (SubscribeOk.from sm chosen.1 largest_location)
    update (λ s. chosen.2)
    send_control_message wt (Enum.subscribe_ok cm)
    update (λ s. record s { out_tracks = insert chosen.0 OutTrack.new s.out_tracks })
    pure chosen.0

  unfoldable pub accept_subscription : ℕ → Option Location → Action (Session × S) ℕ
  unfolding accept_message
  accept_subscription request_id largest_location = do
    s ← self
    sm ← unwrap (get s.pending_received_subscriptions request_id)
    update (λ s. record s {
      pending_received_subscriptions = remove request_id s.pending_received_subscriptions;
    })
    accept_message largest_location sm

  -- `_reject_subscription`
  unfoldable pub reject_message : ℕ → SubscribeMessage → Action (Session × S) (Unit {0})
  unfolding request_error
  reject_message error_code sm =
      send_control_message wt (Enum.request_error (request_error sm error_code))

  unfoldable pub reject_subscription : ℕ → ℕ → Action (Session × S) (Unit {0})
  unfolding reject_message
  reject_subscription request_id error_code = do
    s ← self
    sm ← unwrap (get s.pending_received_subscriptions request_id)
    update (λ s. record s {
      pending_received_subscriptions = remove request_id s.pending_received_subscriptions;
    })
    reject_message error_code sm

  -- `retain` with the answers of the closure, which sees each request once; what is kept.
  unfoldable pub retain_requests :
      (ℕ → SubscribeMessage → SubscriptionRequestAction)
      → Map SubscribeMessage
      → Action (Session × S) (Map SubscribeMessage)
  unfolding accept_message reject_message
  retain_requests f [] = pure []
  retain_requests f ((id, sm) ∷ m) =
      let rest = retain_requests f m in
      elim (f id sm) [
        | keep ↦ do m' ← rest; pure ((id, sm) ∷ m')
        | accept ↦ do a ← accept_message none sm; rest
        | reject error_code ↦ do reject_message error_code sm; rest
      ]

  unfoldable pub process_subscription_requests :
      (ℕ → SubscribeMessage → SubscriptionRequestAction) → Action (Session × S) (Unit {0})
  unfolding retain_requests
  process_subscription_requests f = do
    s ← self
    m ← retain_requests f s.pending_received_subscriptions
    update (λ s. record s { pending_received_subscriptions = m })

  unfoldable pub accept_namespace_publish : ℕ → Action (Session × S) (Unit {0})
  accept_namespace_publish request_id = do
    send_control_message wt (Enum.publish_ok (record { request_id = request_id; parameters = [] }))
    s ← self
    cm ← unwrap (get s.pending_received_publish_namespace request_id)
    update (λ s. record s {
      pending_received_publish_namespace = remove request_id s.pending_received_publish_namespace;
      received_namespaces = insert request_id cm.track_namespace s.received_namespaces;
    })

  unfoldable pub publish_namespace : Namespace → Action (Session × S) ℕ
  unfolding announced
  publish_namespace namespace t =
      after
        (send_control_message wt
          (Enum.publish_namespace (announce_message t.0.next_request_id namespace)) t)
        (λ u t. ((announced namespace t.0, t.1), ok t.0.next_request_id))

  unfoldable pub publish_done : ℕ → Action (Session × S) (Unit {0})
  publish_done request_id =
      send_control_message wt (Enum.publish_done (PublishDone.new request_id 0))

  unfoldable pub publish_namespace_done : ℕ → Action (Session × S) (Unit {0})
  publish_namespace_done request_id (s, c) = elim (get s.sent_namespaces request_id) [
    | none ↦ ((s, c), ok tt)
    | some namespace ↦
        send_control_message wt
          (Enum.publish_namespace_done
            (record { request_id = some request_id; namespace = some namespace }))
          (record s { sent_namespaces = remove request_id s.sent_namespaces }, c)
  ]
