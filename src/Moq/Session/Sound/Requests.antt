-- ===== src/Moq/Session/Sound/Requests.antt =====
-- Asking and answering leave a sound session sound.
use quiche_moq.Common.{
  Bool-cases, Option, [], inl, inr, none, some, subst, ℕ, ◌%◌, ◌+◌, ◌^◌, ◌∷◌, ◌≡◌,
}
use quiche_moq.Common.Map.{Map, get, insert, insert-Each, insert-Every, remove, remove-Each}
use quiche_moq.Octets.{Octets, Result}
use quiche_moq.Octets
use quiche_moq.Wire.Version.{Version, between, draft_07, draft_11, draft_12, draft_16}
use quiche_moq.Wire.Location.{Location}
use quiche_moq.Wire.Namespace.{Namespace}
use quiche_moq.Wire.NamespaceTrackname.{NamespaceTrackname}
use quiche_moq.Wire.Control.Enum.{ControlMessageEnum}
use quiche_moq.Wire.Control.Enum
use quiche_moq.Wire.Control.Subscribe.{SubscribeMessage}
use quiche_moq.Wire.Control.SubscribeOk.{SubscribeOkMessage}
use quiche_moq.Wire.Control.SubscribeOk
use quiche_moq.Wire.Control.PublishNamespace.{PublishNamespaceMessage}
use quiche_moq.Wire.Control.PublishDone
use quiche_moq.Webtransport.{Transport}
use quiche_moq.Moq.Error.{request_blocked}
use quiche_moq.Moq.Action.{
  Action, Keeps, Reply, after, after-Keeps, bind-Keeps, err, if-Keeps, ok, then-Keeps, unwrap_then,
  pure, ◌>>=◌, ◌>>◌,
}
use quiche_moq.Moq.Session.{Session, send_control_message}
use quiche_moq.Moq.Session.Requests.{
  SubscriptionRequestAction, accept, accept_message, accept_namespace_publish, accept_subscription,
  announce_message, announced, built, choose_alias, is_blocked, keep, poll_subscribe_response,
  process_subscription_requests, publish_done, publish_namespace, publish_namespace_done, reject,
  reject_message, reject_subscription, request_error, retain_requests, subscribe, subscribe_message,
  subscribed,
}
use quiche_moq.Moq.Session.Sound.{IsSound, plus_two}
use quiche_moq.Moq.Session.Sound.Handle.{On, send_control_message-Keeps}

subscribed-IsSound : (s : Session) → IsSound s → IsSound (subscribed s)
unfolding subscribed
subscribed-IsSound s (i, t, l) = (
  record {
    next_own = plus_two s.next_request_id _ i.next_own;
    pending_own = insert-Each _ s.next_request_id _ _ i.pending_own i.next_own;
    responses_own = i.responses_own;
    active_own = i.active_own;
    announced_own = i.announced_own;
    sent_own = i.sent_own;
  },
  t,
  l,
)

announced-IsSound : (ns : Namespace) (s : Session) → IsSound s → IsSound (announced ns s)
unfolding announced
announced-IsSound ns s (i, t, l) = (
  record {
    next_own = plus_two s.next_request_id _ i.next_own;
    pending_own = i.pending_own;
    responses_own = i.responses_own;
    active_own = i.active_own;
    announced_own = insert-Each _ s.next_request_id _ _ i.announced_own i.next_own;
    sent_own = i.sent_own;
  },
  t,
  l,
)

pub poll_subscribe_response-IsSound :
    (id : ℕ) (s : Session) → IsSound s → IsSound (poll_subscribe_response id s).0
unfolding poll_subscribe_response
poll_subscribe_response-IsSound id s (i, t, l) = (
  record {
    next_own = i.next_own;
    pending_own = i.pending_own;
    responses_own = remove-Each _ id _ i.responses_own;
    active_own = i.active_own;
    announced_own = i.announced_own;
    sent_own = i.sent_own;
  },
  t,
  l,
)

-- What is chosen changes the counter of aliases at most.
choose_alias-IsSound :
    (v : Option Version) (sm : SubscribeMessage) (s : Session) (x : ℕ × Option ℕ × Session)
    → choose_alias v sm s ≡ some x
    → IsSound s
    → IsSound x.2
unfolding choose_alias
choose_alias-IsSound none sm s x e p = absurd (cc e)
choose_alias-IsSound (some v) sm s x e p = elim (Bool-cases (between draft_07 draft_11 v)) [
  | inl z ↦ given sm.track_alias (rw z at e)
  | inr z ↦ elim (Bool-cases (between draft_12 draft_16 v)) [
    | inl y ↦ chosen (rw (z, y) at e)
    | inr y ↦ absurd (cc (rw (z, y) at e))
  ]
]
  where
    given :
        (y : Option ℕ)
        → elim y as (λ _. Option (ℕ × Option ℕ × Session)) [
          | none ↦ none
          | some a ↦ some (a, none, s)
        ]
          ≡ some x
        → IsSound x.2
    given none e = absurd (cc e)
    given (some a) e = let same : (a, none, s) ≡ x = cc e in subst (λ x. IsSound x.2) same p

    next : Session
    next = record s { next_out_track_alias = (s.next_out_track_alias + 1) % 2 ^ 64 }

    chosen : some (s.next_out_track_alias, some s.next_out_track_alias, next) ≡ some x → IsSound x.2
    chosen e =
        let same : (s.next_out_track_alias, some s.next_out_track_alias, next) ≡ x = cc e in
        subst (λ x. IsSound x.2) same p

module _ {S : Type 0} (wt : Transport S) ⦃o : Octets⦄ where
  sends : (cm : ControlMessageEnum) → Keeps (On IsSound) (send_control_message wt cm)
  sends = send_control_message-Keeps wt IsSound

  pub subscribe-Keeps : (nt : NamespaceTrackname) → Keeps (On IsSound) (subscribe wt nt)
  unfolding subscribe
  subscribe-Keeps nt t p =
      let cm = Enum.subscribe (subscribe_message t.0.next_request_id nt) in
      if-Keeps (On IsSound) (is_blocked t.0) (λ t. (t, err request_blocked))
        (λ t.
          after
            (send_control_message wt (Enum.subscribe (subscribe_message t.0.next_request_id nt)) t)
            (λ u t. ((subscribed t.0, t.1), ok t.0.next_request_id)))
        (λ t q. q)
        (λ t q.
          after-Keeps (On IsSound)
            (send_control_message wt (Enum.subscribe (subscribe_message t.0.next_request_id nt)) t)
            (λ u t. ((subscribed t.0, t.1), ok t.0.next_request_id))
            (sends (Enum.subscribe (subscribe_message t.0.next_request_id nt)) t q)
            (λ u t q. subscribed-IsSound t.0 q))
        t p

  pub publish_namespace-Keeps : (ns : Namespace) → Keeps (On IsSound) (publish_namespace wt ns)
  unfolding publish_namespace
  publish_namespace-Keeps ns t p =
      after-Keeps (On IsSound)
        (send_control_message wt (Enum.publish_namespace (announce_message t.0.next_request_id ns))
          t)
        (λ u t. ((announced ns t.0, t.1), ok t.0.next_request_id))
        (sends (Enum.publish_namespace (announce_message t.0.next_request_id ns)) t p)
        (λ u t q. announced-IsSound ns t.0 q)

  built-Keeps : {A : Type 0} (r : Result A) → Keeps (On {S = S} IsSound) (built r)
  built-Keeps (Octets.ok a) t p = p
  built-Keeps (Octets.err e) t p = p
  built-Keeps Octets.panic t p = p

  accept_message-Keeps :
      (loc : Option Location) (sm : SubscribeMessage)
      → Keeps (On IsSound) (accept_message wt loc sm)
  unfolding accept_message
  accept_message-Keeps loc sm t p =
      unwrap_then (On IsSound) (choose_alias t.0.selected_version sm t.0) _ t p (λ chosen e.
        bind-Keeps (On IsSound) (built (SubscribeOk.from sm chosen.1 loc)) _
          (built-Keeps (SubscribeOk.from sm chosen.1 loc))
          (λ cm u q.
            then-Keeps (On IsSound) (send_control_message wt (Enum.subscribe_ok cm)) _
              (sends (Enum.subscribe_ok cm)) (λ v r. r) (chosen.2, u.1)
              (choose_alias-IsSound t.0.selected_version sm t.0 chosen e p))
          t p)

  pub accept_subscription-Keeps :
      (id : ℕ) (loc : Option Location) → Keeps (On IsSound) (accept_subscription wt id loc)
  unfolding accept_subscription
  accept_subscription-Keeps id loc t p =
      unwrap_then (On IsSound) (get t.0.pending_received_subscriptions id) _ t p (λ sm e.
        accept_message-Keeps loc sm
          (
            record (t.0) {
              pending_received_subscriptions = remove id t.0.pending_received_subscriptions;
            },
            t.1,
          )
          p)

  reject_message-Keeps :
      (code : ℕ) (sm : SubscribeMessage) → Keeps (On IsSound) (reject_message wt code sm)
  unfolding reject_message
  reject_message-Keeps code sm = sends (Enum.request_error (request_error sm code))

  pub reject_subscription-Keeps :
      (id code : ℕ) → Keeps (On IsSound) (reject_subscription wt id code)
  unfolding reject_subscription
  reject_subscription-Keeps id code t p =
      unwrap_then (On IsSound) (get t.0.pending_received_subscriptions id) _ t p (λ sm e.
        reject_message-Keeps code sm
          (
            record (t.0) {
              pending_received_subscriptions = remove id t.0.pending_received_subscriptions;
            },
            t.1,
          )
          p)

  retain_requests-Keeps :
      (f : ℕ → SubscribeMessage → SubscriptionRequestAction) (m : Map SubscribeMessage)
      → Keeps (On IsSound) (retain_requests wt f m)
  unfolding retain_requests
  retain_requests-Keeps f [] t p = p
  retain_requests-Keeps f ((id, sm) ∷ m) t p = cases (f id sm) (retain_requests-Keeps f m)
    where
      cases :
          (x : SubscriptionRequestAction)
          → Keeps (On IsSound) (retain_requests wt f m)
          → IsSound
              ((elim x as (λ _. Action (Session × S) (Map SubscribeMessage)) [
                | keep ↦ do m' ← retain_requests wt f m; pure ((id, sm) ∷ m')
                | accept ↦ do a ← accept_message wt none sm; retain_requests wt f m
                | reject error_code ↦ do reject_message wt error_code sm; retain_requests wt f m
              ])
                t).0.0
      cases keep k =
          bind-Keeps (On IsSound) (retain_requests wt f m) (λ m'. pure ((id, sm) ∷ m')) k
            (λ m' u q. q) t p
      cases accept k =
          bind-Keeps (On IsSound) (accept_message wt none sm) (λ a. retain_requests wt f m)
            (accept_message-Keeps none sm) (λ a. k) t p
      cases (reject code) k =
          then-Keeps (On IsSound) (reject_message wt code sm) (retain_requests wt f m)
            (reject_message-Keeps code sm) k t p

  pub process_subscription_requests-Keeps :
      (f : ℕ → SubscribeMessage → SubscriptionRequestAction)
      → Keeps (On IsSound) (process_subscription_requests wt f)
  unfolding process_subscription_requests
  process_subscription_requests-Keeps f t p =
      bind-Keeps (On IsSound) (retain_requests wt f t.0.pending_received_subscriptions) _
        (retain_requests-Keeps f t.0.pending_received_subscriptions) (λ m u q. q) t p

  accepted-IsSound :
      (id : ℕ) (cm : PublishNamespaceMessage) (s : Session)
      → get s.pending_received_publish_namespace id ≡ some cm
      → IsSound s
      → IsSound (record s {
        pending_received_publish_namespace = remove id s.pending_received_publish_namespace;
        received_namespaces = insert id cm.track_namespace s.received_namespaces;
      })
  accepted-IsSound id cm s e (i, t, l) = (
    i,
    record {
      quota_own = t.quota_own;
      expected_peer = t.expected_peer;
      pending_peer = remove-Each _ id _ t.pending_peer;
      received_peer = insert-Every _ id _ _ t.received_peer (t.pending_peer id cm e);
    },
    l,
  )

  pub accept_namespace_publish-Keeps :
      (id : ℕ) → Keeps (On IsSound) (accept_namespace_publish wt id)
  unfolding accept_namespace_publish
  accept_namespace_publish-Keeps id =
      then-Keeps (On IsSound)
        (send_control_message wt (Enum.publish_ok (record { request_id = id; parameters = [] }))) _
        (sends (Enum.publish_ok (record { request_id = id; parameters = [] })))
        (λ t p.
          unwrap_then (On IsSound) (get t.0.pending_received_publish_namespace id) _ t p
            (λ cm e. accepted-IsSound id cm t.0 e p))

  pub publish_done-Keeps : (id : ℕ) → Keeps (On IsSound) (publish_done wt id)
  unfolding publish_done
  publish_done-Keeps id = sends (Enum.publish_done (PublishDone.new id 0))

  pub publish_namespace_done-Keeps : (id : ℕ) → Keeps (On IsSound) (publish_namespace_done wt id)
  unfolding publish_namespace_done
  publish_namespace_done-Keeps id (s, c) (i, t, l) = cases (get s.sent_namespaces id)
    where
      left : Session
      left = record s { sent_namespaces = remove id s.sent_namespaces }

      left-IsSound : IsSound left
      left-IsSound = (
        record {
          next_own = i.next_own;
          pending_own = i.pending_own;
          responses_own = i.responses_own;
          active_own = i.active_own;
          announced_own = i.announced_own;
          sent_own = remove-Each _ id _ i.sent_own;
        },
        t,
        l,
      )

      cases :
          (x : Option Namespace)
          → IsSound
              (elim x as (λ _. (Session × S) × Reply (Unit {0})) [
                | none ↦ ((s, c), ok tt)
                | some namespace ↦
                    send_control_message wt
                      (Enum.publish_namespace_done
                        (record { request_id = some id; namespace = some namespace }))
                      (left, c)
              ]).0.0
      cases none = (i, t, l)
      cases (some ns) =
          sends (Enum.publish_namespace_done (record { request_id = some id; namespace = some ns }))
            (left, c) left-IsSound
