-- ===== src/Moq/Session/Reachable.antt =====
-- The sessions that the methods of the crate make of a new one, in any order.
use quiche_moq.Common.{List, Option, none, some, subst, true, ℕ, ◌≡◌}
use quiche_moq.Common.Map.{Map}
use quiche_moq.Common.Outcome.{Outcome}
use quiche_moq.Octets.{Octets}
use quiche_moq.Wire.Location.{Location}
use quiche_moq.Wire.Namespace.{Namespace}
use quiche_moq.Wire.NamespaceTrackname.{NamespaceTrackname}
use quiche_moq.Wire.KeyValuePairs.{KeyValuePairs}
use quiche_moq.Wire.Control.Enum
use quiche_moq.Wire.Control.Subscribe.{SubscribeMessage}
use quiche_moq.Webtransport.{Transport, Error as WtError}
use quiche_moq.Moq.Action.{Reply}
use quiche_moq.Moq.OutStream.{OutStream}
use quiche_moq.Moq.OutTrack.{OutTrack}
use quiche_moq.Moq.Session.{
  Config, Session, client, connect, send_control_message, setup_parameters,
}
use quiche_moq.Moq.Session
use quiche_moq.Moq.Session.Poll
use quiche_moq.Moq.Session.Receive
use quiche_moq.Moq.Session.Requests
use quiche_moq.Moq.Session.Requests.{SubscriptionRequestAction}
use quiche_moq.Moq.Session.Send
use quiche_moq.Moq.Session.Sound.{IsSound, accept-IsSound, client-IsSound}
use quiche_moq.Moq.Session.Sound.Handle.{send_control_message-Keeps}
use quiche_moq.Moq.Session.Sound.Poll as PollSound
use quiche_moq.Moq.Session.Sound.Receive as ReceiveSound
use quiche_moq.Moq.Session.Sound.Requests as RequestsSound
use quiche_moq.Moq.Session.Sound.Send as SendSound

module _ {S : Type 0} (wt : Transport S) ⦃o : Octets⦄ where
  -- A call of a method, whatever it answers, or a change of the connections by others.
  pub data Step : Session × S → Session × S → Type 0 where
    elsewhere : (s : Session) (c d : S) → Step (s, c) (s, d)
    poll : (fuel : ℕ) (t : Session × S) → Step t (Poll.poll wt fuel t).0
    subscribe : (nt : NamespaceTrackname) (t : Session × S) → Step t (Requests.subscribe wt nt t).0
    accept_subscription :
        (id : ℕ) (loc : Option Location) (t : Session × S)
        → Step t (Requests.accept_subscription wt id loc t).0
    reject_subscription :
        (id code : ℕ) (t : Session × S) → Step t (Requests.reject_subscription wt id code t).0
    process_subscription_requests :
        (f : ℕ → SubscribeMessage → SubscriptionRequestAction) (t : Session × S)
        → Step t (Requests.process_subscription_requests wt f t).0
    poll_subscribe_response :
        (id : ℕ) (s : Session) (c : S) → Step (s, c) ((Requests.poll_subscribe_response id s).0, c)
    publish_namespace :
        (ns : Namespace) (t : Session × S) → Step t (Requests.publish_namespace wt ns t).0
    accept_namespace_publish :
        (id : ℕ) (t : Session × S) → Step t (Requests.accept_namespace_publish wt id t).0
    publish_done : (id : ℕ) (t : Session × S) → Step t (Requests.publish_done wt id t).0
    publish_namespace_done :
        (id : ℕ) (t : Session × S) → Step t (Requests.publish_namespace_done wt id t).0
    send_obj : (buf : List ℕ) (a : ℕ) (t : Session × S) → Step t (Send.send_obj wt buf a t).0
    send_obj_with :
        (buf : List ℕ) (group_id object_id : Option ℕ) (ext : KeyValuePairs) (a : ℕ)
        (t : Session × S)
        → Step t (Send.send_obj_with wt buf group_id object_id ext a t).0
    send_obj_hdr_with :
        (group_id subgroup_id object_id : Option ℕ) (size : ℕ) (ext : KeyValuePairs) (a : ℕ)
        (t : Session × S)
        → Step t (Send.send_obj_hdr_with wt group_id subgroup_id object_id size ext a t).0
    send_obj_hdr : (size a : ℕ) (t : Session × S) → Step t (Send.send_obj_hdr wt size a t).0
    send_obj_pld :
        (buf : List ℕ) (a : ℕ) (t : Session × S) → Step t (Send.send_obj_pld wt buf a t).0
    reset_current_track_stream :
        (a : ℕ) (t : Session × S) → Step t (Send.reset_current_track_stream wt a t).0
    timeout_stream : (a : ℕ) (t : Session × S) → Step t (Send.timeout_stream wt a t).0
    read_obj_hdr :
        (fuel rounds a : ℕ) (t : Session × S) → Step t (Receive.read_obj_hdr wt fuel rounds a t).0
    read_obj_pld :
        (buf : List ℕ) (a : ℕ) (t : Session × S) → Step t (Receive.read_obj_pld wt buf a t).0

  pub data Reachable : Session × S → Type 0 where
    accepted :
        (session_id : ℕ) (config : Config) (c : S) → Reachable (Session.accept session_id config, c)
    connected :
        (session_id : ℕ) (config : Config) (c : S) (s : Session) (d : S) (r : Reply (Unit {0}))
        → connect wt session_id config c ≡ some (s, d, r)
        → Reachable (s, d)
    next : (t u : Session × S) → Reachable t → Step t u → Reachable u

  kept :
      (s : Session) (tracks : Map OutTrack) (streams : Map OutStream)
      → IsSound s
      → IsSound (record s { out_tracks = tracks; out_streams = streams })
  kept s tracks streams p = p

  step-IsSound : (t u : Session × S) → Step t u → IsSound t.0 → IsSound u.0
  step-IsSound _ _ (elsewhere s c d) p = p
  step-IsSound _ _ (poll fuel t) p = PollSound.poll-Keeps wt fuel t p
  step-IsSound _ _ (subscribe nt t) p = RequestsSound.subscribe-Keeps wt nt t p
  step-IsSound _ _ (accept_subscription id loc t) p =
      RequestsSound.accept_subscription-Keeps wt id loc t p
  step-IsSound _ _ (reject_subscription id code t) p =
      RequestsSound.reject_subscription-Keeps wt id code t p
  step-IsSound _ _ (process_subscription_requests f t) p =
      RequestsSound.process_subscription_requests-Keeps wt f t p
  step-IsSound _ _ (poll_subscribe_response id s c) p =
      RequestsSound.poll_subscribe_response-IsSound id s p
  step-IsSound _ _ (publish_namespace ns t) p = RequestsSound.publish_namespace-Keeps wt ns t p
  step-IsSound _ _ (accept_namespace_publish id t) p =
      RequestsSound.accept_namespace_publish-Keeps wt id t p
  step-IsSound _ _ (publish_done id t) p = RequestsSound.publish_done-Keeps wt id t p
  step-IsSound _ _ (publish_namespace_done id t) p =
      RequestsSound.publish_namespace_done-Keeps wt id t p
  step-IsSound _ _ (send_obj buf a t) p = SendSound.send_obj-Keeps IsSound kept wt buf a t p
  step-IsSound _ _ (send_obj_with buf g i ext a t) p =
      SendSound.send_obj_with-Keeps IsSound kept wt buf g i ext a t p
  step-IsSound _ _ (send_obj_hdr_with g h i size ext a t) p =
      SendSound.send_obj_hdr_with-Keeps IsSound kept wt g h i size ext a t p
  step-IsSound _ _ (send_obj_hdr size a t) p =
      SendSound.send_obj_hdr-Keeps IsSound kept wt size a t p
  step-IsSound _ _ (send_obj_pld buf a t) p = SendSound.send_obj_pld-Keeps IsSound kept wt buf a t p
  step-IsSound _ _ (reset_current_track_stream a t) p =
      SendSound.reset_current_track_stream-Keeps IsSound kept wt a t p
  step-IsSound _ _ (timeout_stream a t) p = SendSound.timeout_stream-Keeps IsSound kept wt a t p
  step-IsSound _ _ (read_obj_hdr fuel rounds a t) p =
      ReceiveSound.read_obj_hdr-Keeps wt fuel rounds a t p
  step-IsSound _ _ (read_obj_pld buf a t) p = ReceiveSound.read_obj_pld-IsSound wt buf a t p

  connect-IsSound :
      (session_id : ℕ) (config : Config) (c : S) (s : Session) (d : S) (r : Reply (Unit {0}))
      → connect wt session_id config c ≡ some (s, d, r)
      → IsSound s
  unfolding connect
  connect-IsSound session_id config c s d r e = cases (wt.open_stream session_id true c).1 e
    where
      setup : Enum.ControlMessageEnum
      setup = Enum.client_setup (record {
        supported_versions = config.supported_versions;
        setup_parameters = setup_parameters 100;
      })

      cases :
          (x : Outcome WtError ℕ)
          → elim x as (λ _. Option (Session × S × Reply (Unit {0}))) [
            | Outcome.ok id ↦
                let q =
                  send_control_message wt setup
                    (client session_id id config, (wt.open_stream session_id true c).0) in
                some (q.0.0, q.0.1, q.1)
            | Outcome.err e ↦ none
            | Outcome.panicked ↦ none
          ]
            ≡ some (s, d, r)
          → IsSound s
      cases (Outcome.ok id) e =
          let q =
            send_control_message wt setup
              (client session_id id config, (wt.open_stream session_id true c).0) in
          let same : (q.0.0, q.0.1, q.1) ≡ (s, d, r) = cc e in
          subst (λ (x : Session × S × Reply (Unit {0})). IsSound x.0) same
            (send_control_message-Keeps wt IsSound setup
              (client session_id id config, (wt.open_stream session_id true c).0)
              (client-IsSound session_id id config))
      cases (Outcome.err i) e = absurd (cc e)
      cases Outcome.panicked e = absurd (cc e)

  -- Over every transport, each session that accept, or connect where it returns, and then calls of
  -- the other methods make, in any order and whatever they answer, a panic included, is sound: the
  -- ids of its own requests have its parity (even for a client, odd for a server), the ids under
  -- which it took namespaces from the peer have the other and are at most the quota of its role
  -- (100 for a client, 0 for a server), the readable streams of each track are ascending, and each
  -- of them and each stream that waits for its track is a stream of the session whose header names
  -- that track, and no track that exists is waited for.
  pub reachable-IsSound : (t : Session × S) → Reachable t → IsSound t.0
  reachable-IsSound _ (accepted session_id config c) = accept-IsSound session_id config
  reachable-IsSound _ (connected session_id config c s d r e) =
      connect-IsSound session_id config c s d r e
  reachable-IsSound _ (next t u h k) = step-IsSound t u k (reachable-IsSound t h)
