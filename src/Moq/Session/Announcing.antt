-- ===== src/Moq/Session/Announcing.antt =====
-- Namespaces between two sessions: how an announcement goes from one to the other and back, and
-- which ones the peer does not take.
use quiche_moq.Common.{
  ==_iff, Bool, Bool-cases, Option, [], ap, arith, false, inl, inr, leb, none, refl, some, subst,
  sym, true, ℕ, ◌%◌, ◌+◌, ◌==◌, ◌^◌, ◌∙◌, ◌∷◌, ◌≡◌, ◌≢◌, ◌≤◌,
}
use quiche_moq.Common.Map.{
  Every, Map, contains_key, contains_key-get, get, get-insert_self, get-remove_self, insert, remove,
}
use quiche_moq.Octets.{Octets}
use quiche_moq.Wire.Namespace.{Namespace}
use quiche_moq.Wire.NamespaceTrackname.{NamespaceTrackname}
use quiche_moq.Wire.Control.Enum.{ControlMessageEnum}
use quiche_moq.Wire.Control.Enum
use quiche_moq.Wire.Control.PublishNamespace.{PublishNamespaceMessage}
use quiche_moq.Webtransport.{Transport}
use quiche_moq.Moq.Action.{Reply, after, after_ok, ok, panicked, unwrap, ◌>>◌}
use quiche_moq.Moq.Session.{Session, send_control_message, update}
use quiche_moq.Moq.Session.Handle.{handle, on_publish_namespace, on_publish_ok}
use quiche_moq.Moq.Session.Reachable.{Reachable, reachable-IsSound}
use quiche_moq.Moq.Session.Requests.{
  PublishStatus, accept_namespace_publish, announce_message, announced, publish_namespace,
  publish_namespace_done, publish_namespace_status, subscribe, subscribe_message, subscribed,
}
use quiche_moq.Moq.Session.Sound.{peer, quota_of}
use quiche_moq.Moq.Session.Sound.Handle.{send_control_message-Keeps}
use quiche_moq.Moq.Session.Subscribing.{subscribe_facts, value}

contains_some :
    {V : Type 0} (m : Map V) (k : ℕ) (v : V) → get m k ≡ some v → contains_key m k ≡ true
contains_some {V} m k v e =
    contains_key-get m k
    ∙ ap (λ (x : Option V). elim x as (λ _. Bool) [ none ↦ false | some v ↦ true ]) e

contains_none : {V : Type 0} (m : Map V) (k : ℕ) → get m k ≡ none → contains_key m k ≡ false
contains_none {V} m k e =
    contains_key-get m k
    ∙ ap (λ (x : Option V). elim x as (λ _. Bool) [ none ↦ false | some v ↦ true ]) e

module _ {S : Type 0} (wt : Transport S) ⦃o : Octets⦄ where
  sent_session :
      (cm : ControlMessageEnum) (t : Session × S) → (send_control_message wt cm t).0.0 ≡ t.0
  sent_session cm t = send_control_message-Keeps wt (λ s. s ≡ t.0) cm t refl

  pub announce_facts :
      (ns : Namespace) (t u : Session × S) (id : ℕ)
      → publish_namespace wt ns t ≡ (u, ok id)
      → (u.0 ≡ announced ns t.0) × (id ≡ t.0.next_request_id)
  unfolding publish_namespace
  announce_facts ns t u id e =
      let cm = Enum.publish_namespace (announce_message t.0.next_request_id ns) in
      let (a, f, g) =
        after_ok (send_control_message wt cm t)
          (λ u t. ((announced ns t.0, t.1), ok t.0.next_request_id)) u id e in
      (
        sym (ap (λ (x : (Session × S) × Reply ℕ). x.0.0) g) ∙ ap (announced ns) (sent_session cm t),
        sym (ap (λ (x : (Session × S) × Reply ℕ). value x.1) g)
            ∙ ap (λ (s : Session). s.next_request_id) (sent_session cm t),
      )

  announced_pending :
      (ns : Namespace) (t u : Session × S) (id : ℕ)
      → publish_namespace wt ns t ≡ (u, ok id)
      → get u.0.pending_sent_publish_namespace id ≡ some (announce_message id ns)
  unfolding announced
  announced_pending ns t u id e =
      let (s, i) = announce_facts ns t u id e in
      ap (λ (s : Session). get s.pending_sent_publish_namespace id) s
      ∙ subst
          (λ n.
            get (insert n (announce_message n ns) t.0.pending_sent_publish_namespace) id
            ≡ some (announce_message id ns))
          i (get-insert_self id (announce_message id ns) t.0.pending_sent_publish_namespace)

  publish_ok_taken :
      (id : ℕ) (pom : PublishNamespaceMessage) (u : Session × S)
      → get u.0.pending_sent_publish_namespace id ≡ some pom
      → handle wt (Enum.publish_ok (record { request_id = id; parameters = [] })) u
        ≡ ((on_publish_ok id pom u.0, u.1), ok tt)
  unfolding handle
  publish_ok_taken id pom u e =
      ap
        (λ (x : Option PublishNamespaceMessage).
          after (unwrap x u) (λ pom. update (on_publish_ok id pom)))
        e

  -- After publish_namespace returned an id under which nothing was announced, the status of the id
  -- is pending; a PUBLISH_OK with the id is handled without a panic and makes it accepted;
  -- publish_namespace_done, whatever it answers, makes it unknown.
  pub namespace_life :
      (ns : Namespace) (t u : Session × S) (id : ℕ)
      → publish_namespace wt ns t ≡ (u, ok id)
      → get t.0.sent_namespaces id ≡ none
      → (publish_namespace_status id u.0 ≡ PublishStatus.pending)
        × (v : Session × S) × (handle wt
              (Enum.publish_ok (record { request_id = id; parameters = [] }))
              u
            ≡ (v, ok tt))
        × (publish_namespace_status id v.0 ≡ PublishStatus.accepted)
        × (publish_namespace_status id (publish_namespace_done wt id v).0.0 ≡ PublishStatus.unknown)
  unfolding publish_namespace_status on_publish_ok publish_namespace_done announced
  namespace_life ns t u id e f =
      let (s, i) = announce_facts ns t u id e in
      let waiting = announced_pending ns t u id e in
      let unsent : get u.0.sent_namespaces id ≡ none =
        ap (λ (s : Session). get s.sent_namespaces id) s ∙ f in
      let pom = announce_message id ns in
      let v : Session × S = (on_publish_ok id pom u.0, u.1) in
      let sent : get v.0.sent_namespaces id ≡ some pom.track_namespace =
        get-insert_self id pom.track_namespace u.0.sent_namespaces in
      let left : Session = record (v.0) { sent_namespaces = remove id v.0.sent_namespaces } in
      let cm =
        Enum.publish_namespace_done
          (record { request_id = some id; namespace = some pom.track_namespace }) in
      let done : (publish_namespace_done wt id v).0.0 ≡ left =
        ap
          (λ (x : Option Namespace).
            (elim x as (λ _. (Session × S) × Reply (Unit {0})) [
              | none ↦ (v, ok tt)
              | some namespace ↦
                  send_control_message wt
                    (Enum.publish_namespace_done
                      (record { request_id = some id; namespace = some namespace }))
                    (left, u.1)
            ]).0.0)
          sent
        ∙ sent_session cm (left, u.1) in
      (
        rw (contains_none _ id unsent, contains_some _ id _ waiting) refl,
        v,
        publish_ok_taken id pom u waiting,
        rw (contains_some _ id _ sent) refl,
        ap (publish_namespace_status id) done
            ∙ rw
                (
                  contains_none (remove id v.0.sent_namespaces) id
                      (get-remove_self id v.0.sent_namespaces),
                  contains_none (remove id u.0.pending_sent_publish_namespace) id
                      (get-remove_self id u.0.pending_sent_publish_namespace),
                )
                refl,
      )

  first :
      (quota : ℕ)
      → quota ≡ 0
      → (r : ℕ) (m : Map Namespace) → Every (λ id ns. (id % 2 ≡ r) × (id ≤ quota)) m
      → Every (λ id ns. id ≡ 0) m
  first quota z r [] h = tt
  first quota z r ((id, ns) ∷ m) h = (omega (arith, h.0.1, z), first quota z r m h.1)

  -- In every session of a server that can be reached, all namespaces of the peer are under the id
  -- 0, and a PUBLISH_NAMESPACE with an id of 1 or more makes the server panic: accept leaves the
  -- quota at 0.
  pub server_takes_one :
      (t : Session × S)
      → Reachable wt t
      → t.0.server ≡ true
      → Every (λ id ns. id ≡ 0) t.0.received_namespaces
        × ((id : ℕ) (ns : Namespace)
            → 1 ≤ id
            → (handle wt (Enum.publish_namespace (announce_message id ns)) t).1 ≡ panicked)
  unfolding handle announce_message
  server_takes_one t r e =
      let (i, k, l) = reachable-IsSound wt t r in
      let none_left : t.0.out_max_request_id ≡ 0 = k.quota_own ∙ ap quota_of e in
      (
        first t.0.out_max_request_id none_left (peer t.0.server) t.0.received_namespaces
            k.received_peer,
        λ id ns h.
            let over : leb id t.0.out_max_request_id ≡ false = ground (arith, h, none_left) in
            rw over refl,
      )

not_same : (a b : ℕ) → a ≢ b → (a == b) ≡ false
not_same a b h = elim (Bool-cases (a == b)) [ inl z ↦ absurd (h ((==_iff a b).0 z)) | inr z ↦ z ]

unwrap_ok :
    {T A : Type 0} (t : T) (x : Option A) (a : A) {b : A}
    → (unwrap x t).1 ≡ ok a
    → x ≡ some b
    → a ≡ b
unwrap_ok t none a e f = absurd (cc f)
unwrap_ok t (some c) a e f = cc (e, f)

-- What `accept_namespace_publish` does once the answer is sent.
abbrev accepted : ℕ → PublishNamespaceMessage → Session → Session
accepted id cm s = record s {
  pending_received_publish_namespace = remove id s.pending_received_publish_namespace;
  received_namespaces = insert id cm.track_namespace s.received_namespaces;
}

module _ {S : Type 0} (wt : Transport S) ⦃o : Octets⦄ where
  -- The namespace of an announcement that is accepted is there under its id.
  accept_facts :
      (id : ℕ) (cm : PublishNamespaceMessage) (t u : Session × S)
      → get t.0.pending_received_publish_namespace id ≡ some cm
      → accept_namespace_publish wt id t ≡ (u, ok tt)
      → get u.0.received_namespaces id ≡ some cm.track_namespace
  unfolding accept_namespace_publish
  accept_facts id cm t u there h =
      let ok_message = Enum.publish_ok (record { request_id = id; parameters = [] }) in
      let sent = send_control_message wt ok_message t in
      let (a, x, y) =
        after_ok sent
          (λ v t.
            after (unwrap (get t.0.pending_received_publish_namespace id) t)
              (λ cm. update (accepted id cm)))
          u tt h in
      let (c, k, z) =
        after_ok (unwrap (get sent.0.0.pending_received_publish_namespace id) sent.0)
          (λ cm. update (accepted id cm)) u tt y in
      let same : c ≡ cm = unwrap_ok sent.0 _ c k (
        ap (λ (s : Session). get s.pending_received_publish_namespace id)
          (sent_session wt ok_message t)
        ∙ there) in
      ap (λ (x : (Session × S) × Reply (Unit {0})). get x.0.0.received_namespaces id) (sym z)
      ∙ get-insert_self id c.track_namespace _
      ∙ ap (λ (c : PublishNamespaceMessage). some c.track_namespace) same

module _ {S T : Type 0} (wt : Transport S) (other : Transport T) ⦃o : Octets⦄ where
  -- The two messages as they are handled.
  pub handled_at_both :
      (ns : Namespace) (t u : Session × S) (r : Session × T) (w : Session × T) (id : ℕ)
      → publish_namespace wt ns t ≡ (u, ok id)
      → r.0.next_expected_request_id ≡ id
      → id ≤ r.0.out_max_request_id
      → (handle other (Enum.publish_namespace (announce_message id ns))
            >> accept_namespace_publish other id)
          r
        ≡ (w, ok tt)
      → (get w.0.received_namespaces id ≡ some ns)
        × (v : Session × S) × (handle wt
              (Enum.publish_ok (record { request_id = id; parameters = [] }))
              u
            ≡ (v, ok tt))
        × (publish_namespace_status id v.0 ≡ PublishStatus.accepted)
  unfolding handle on_publish_namespace accept_namespace_publish on_publish_ok
      publish_namespace_status announce_message
  handled_at_both ns t u r w id e f g h =
      let cm = announce_message id ns in
      let r' : Session × T = (on_publish_namespace id cm r.0, r.1) in
      let within : leb id r.0.out_max_request_id ≡ true = ground (arith, g) in
      let expected : (id == r.0.next_expected_request_id) ≡ true = (==_iff id _).1 (sym f) in
      let taken : accept_namespace_publish other id r' ≡ (w, ok tt) = rw (within, expected) at h in
      let waiting = announced_pending wt ns t u id e in
      let v : Session × S = (on_publish_ok id cm u.0, u.1) in
      (
        accept_facts other id cm r' w (get-insert_self id cm _) taken,
        v,
        publish_ok_taken wt id cm u waiting,
        rw (contains_some _ id _ (get-insert_self id cm.track_namespace u.0.sent_namespaces)) refl,
      )

  -- If a session subscribes and then publishes a namespace, and both calls return, then a peer that
  -- expects the first of the two ids, as it does when the session is new, panics when it handles
  -- the two messages in their order, whatever its quota: SUBSCRIBE does not move the id that it
  -- expects.
  pub publish_after_subscribe :
      (nt : NamespaceTrackname) (ns : Namespace) (t u v : Session × S) (r : Session × T) (id n : ℕ)
      → subscribe wt nt t ≡ (u, ok id)
      → publish_namespace wt ns u ≡ (v, ok n)
      → r.0.next_expected_request_id ≡ id
      → ((handle other (Enum.subscribe (subscribe_message id nt))
            >> handle other (Enum.publish_namespace (announce_message n ns)))
          r).1
        ≡ panicked
  unfolding handle subscribed announce_message
  publish_after_subscribe nt ns t u v r id n e f g =
      let (b, s, i) = subscribe_facts wt nt t u id e in
      let (s', j) = announce_facts wt ns u v n f in
      let next : u.0.next_request_id ≡ (t.0.next_request_id + 2) % 2 ^ 64 =
        ap (λ (s : Session). s.next_request_id) s in
      elim (Bool-cases (leb n r.0.out_max_request_id)) [
        | inl z ↦
            let differ : (n == r.0.next_expected_request_id) ≡ false =
              not_same n r.0.next_expected_request_id (omega (arith, g, i, j, next)) in
            rw (z, differ) refl
        | inr z ↦ rw z refl
      ]
