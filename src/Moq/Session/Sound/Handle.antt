-- ===== src/Moq/Session/Sound/Handle.antt =====
-- A control message leaves a sound session sound.
use quiche_moq.Common.{
  ==_iff, List, Option, contains, false, leb, leb→le, length, none, not, some, true, ℕ, ◌==◌, ◌≡◌,
}
use quiche_moq.Common.Map.{get, insert-Each, modify, remove-Each, remove-Every, retain-Every}
use quiche_moq.Octets.{Octets, Result}
use quiche_moq.Octets
use quiche_moq.Wire.Namespace.{Namespace}
use quiche_moq.Wire.Control.PublishNamespace.{PublishNamespaceMessage}
use quiche_moq.Wire.Control.PublishDone.{PublishDoneMessage}
use quiche_moq.Wire.Control.Enum.{ControlMessageEnum}
use quiche_moq.Wire.Control.Enum
use quiche_moq.Webtransport.{Transport}
use quiche_moq.Moq.Action.{
  Keeps, after-Keeps, assert, assert_then, unwrap_then, assert-Keeps, unwrapped,
}
use quiche_moq.Moq.InTrack.{mark_done}
use quiche_moq.Moq.OutStream.{in_buffer}
use quiche_moq.Moq.Session.{Session, send_all, send_control_message, version_or_setup}
use quiche_moq.Moq.Session.Handle.{
  alias_of, handle, namespace_eq, on_client_setup, on_namespace_done, on_publish_done,
  on_publish_namespace, on_publish_ok, on_server_setup,
}
use quiche_moq.Moq.Session.Linked.{done-IsLinked}
use quiche_moq.Moq.Session.Sound.{IsSound, plus_two, on_accepted-IsSound, on_rejected-IsSound}

on_publish_done-IsSound :
    (cm : PublishDoneMessage) (s : Session) → IsSound s → IsSound (on_publish_done cm s)
unfolding on_publish_done
on_publish_done-IsSound cm s (i, t, l) = cases (get s.active_subscriptions cm.request_id)
  where
    cases :
        (x : Option ℕ)
        → IsSound (elim x [
          | none ↦ s
          | some track_alias ↦ record s {
            in_tracks = modify track_alias (mark_done cm.stream_count) s.in_tracks;
          }
        ])
    cases none = (i, t, l)
    cases (some a) =
        (i, t, done-IsLinked s.in_streams s.in_tracks s.pending_streams l a cm.stream_count)

on_publish_namespace-IsSound :
    (request_id : ℕ) (cm : PublishNamespaceMessage) (s : Session)
    → leb request_id s.out_max_request_id ≡ true
    → (request_id == s.next_expected_request_id) ≡ true
    → IsSound s
    → IsSound (on_publish_namespace request_id cm s)
unfolding on_publish_namespace
on_publish_namespace-IsSound id cm s q e (i, t, l) =
    let same = (==_iff id s.next_expected_request_id).0 e in
    (
      i,
      record {
        quota_own = t.quota_own;
        expected_peer = plus_two s.next_expected_request_id _ t.expected_peer;
        pending_peer = insert-Each _ id cm _ t.pending_peer (rw same t.expected_peer, leb→le _ _ q);
        received_peer = t.received_peer;
      },
      l,
    )

on_namespace_done-IsSound :
    (id : Option ℕ) (ns : Option Namespace) (s : Session)
    → IsSound s
    → IsSound (on_namespace_done id ns s)
unfolding on_namespace_done
on_namespace_done-IsSound (some id) none s (i, t, l) = (
  i,
  record {
    quota_own = t.quota_own;
    expected_peer = t.expected_peer;
    pending_peer = t.pending_peer;
    received_peer = remove-Every _ id _ t.received_peer;
  },
  l,
)
on_namespace_done-IsSound none (some ns) s (i, t, l) = (
  i,
  record {
    quota_own = t.quota_own;
    expected_peer = t.expected_peer;
    pending_peer = t.pending_peer;
    received_peer = retain-Every _ (λ k v. not (namespace_eq v ns)) _ t.received_peer;
  },
  l,
)
on_namespace_done-IsSound none none s h = h
on_namespace_done-IsSound (some id) (some ns) s h = h

on_publish_ok-IsSound :
    (request_id : ℕ) (pom : PublishNamespaceMessage) (s : Session)
    → get s.pending_sent_publish_namespace request_id ≡ some pom
    → IsSound s
    → IsSound (on_publish_ok request_id pom s)
unfolding on_publish_ok
on_publish_ok-IsSound id pom s e (i, t, l) = (
  record {
    next_own = i.next_own;
    pending_own = i.pending_own;
    responses_own = i.responses_own;
    active_own = i.active_own;
    announced_own = remove-Each _ id _ i.announced_own;
    sent_own = insert-Each _ id _ _ i.sent_own (i.announced_own id pom e);
  },
  t,
  l,
)

module _ {S : Type 0} where
  -- A property of the session alone.
  abbrev pub On : (Session → Type 0) → Session × S → Type 0
  On P t = P t.0

  module _ (wt : Transport S) where
    send_all-Keeps :
        (P : Session → Type 0) (id : ℕ) (b : Result (List ℕ)) → Keeps (On P) (send_all wt id b)
    unfolding send_all
    send_all-Keeps P id (Octets.ok b) t p =
        let sent = wt.stream_send id b false t.1 in
        after-Keeps (On P) ((t.0, sent.0), unwrapped sent.1) (λ n. assert (n == length b)) p
          (λ n. assert-Keeps (On P) (n == length b))
    send_all-Keeps P id (Octets.err e) t p = p
    send_all-Keeps P id Octets.panic t p = p

    module _ ⦃o : Octets⦄ where
      pub send_control_message-Keeps :
          (P : Session → Type 0) (cm : ControlMessageEnum)
          → Keeps (On P) (send_control_message wt cm)
      unfolding send_control_message
      send_control_message-Keeps P cm t p =
          unwrap_then (On P) t.0.control_stream_id
            (λ id. send_all wt id (in_buffer (Enum.to_bytes (version_or_setup t.0) cm))) t p
            (λ id e. send_all-Keeps P id (in_buffer (Enum.to_bytes (version_or_setup t.0) cm)) t p)

      pub handle-Keeps : (cm : ControlMessageEnum) → Keeps (On IsSound) (handle wt cm)
      unfolding handle on_server_setup on_client_setup
      handle-Keeps (Enum.server_setup cm) t p =
          assert_then (On IsSound) (not t.0.server) _ t p (λ e. p)
      handle-Keeps (Enum.requests_blocked cm) t p = p
      handle-Keeps (Enum.subscribe_ok cm) t p =
          unwrap_then (On IsSound) (get t.0.pending_subscribe cm.request_id) _ t p (λ req e.
            unwrap_then (On IsSound) (alias_of t.0.selected_version req cm) _ t p
              (λ a f. on_accepted-IsSound cm.request_id a req cm t.0 e p))
      handle-Keeps (Enum.request_error cm) t p =
          unwrap_then (On IsSound) (get t.0.pending_subscribe cm.request_id) _ t p
            (λ req e. on_rejected-IsSound req cm t.0 e p)
      handle-Keeps (Enum.publish_done cm) t p = on_publish_done-IsSound cm t.0 p
      handle-Keeps (Enum.publish_namespace cm) t p =
          unwrap_then (On IsSound) cm.request_id _ t p (λ id e.
            assert_then (On IsSound) (leb id t.0.out_max_request_id) _ t p (λ q.
              assert_then (On IsSound) (id == t.0.next_expected_request_id) _ t p
                (λ f. on_publish_namespace-IsSound id cm t.0 q f p)))
      handle-Keeps (Enum.client_setup cm) t p = assert_then (On IsSound) t.0.server _ t p (λ e.
          assert_then (On IsSound) (contains cm.supported_versions t.0.config.setup_version) _ t p
            (λ f. send_control_message-Keeps IsSound _ (on_client_setup cm t.0, t.1) p))
      handle-Keeps (Enum.subscribe cm) t p = p
      handle-Keeps (Enum.request_ok cm) t p = p
      handle-Keeps (Enum.publish_namespace_done cm) t p =
          on_namespace_done-IsSound cm.request_id cm.namespace t.0 p
      handle-Keeps (Enum.publish_ok cm) t p =
          unwrap_then (On IsSound) (get t.0.pending_sent_publish_namespace cm.request_id) _ t p
            (λ pom e. on_publish_ok-IsSound cm.request_id pom t.0 e p)
      handle-Keeps (Enum.unsubscribe_namespace cm) t p = p
      handle-Keeps (Enum.track_status cm) t p = p
