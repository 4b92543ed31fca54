-- ===== src/Moq/Session/Subscribing.antt =====
-- A subscription from the request to the response.
use quiche_moq.Common.{
  ==_iff, Bool, Bool-cases, Option, ap, arith, contains, false, inl, inr, ltb, ltb→le, none, not,
  refl, some, subst, sym, true, ℕ, ◌%◌, ◌&&◌, ◌+◌, ◌==◌, ◌^◌, ◌||◌, ◌↔◌, ◌∙◌, ◌≡◌, ◌≤◌, ◌⊎◌,
}
use quiche_moq.Common.Map.{get, get-insert_self, get-remove_self, insert}
use quiche_moq.Octets.{Octets}
use quiche_moq.Wire.NamespaceTrackname.{NamespaceTrackname}
use quiche_moq.Wire.Control.Enum.{ControlMessageEnum}
use quiche_moq.Wire.Control.Enum
use quiche_moq.Wire.Control.SubscribeOk.{SubscribeOkMessage}
use quiche_moq.Webtransport.{Transport}
use quiche_moq.Moq.Action.{Reply, after, ok, unwrap, after_ok, ◌>>=◌}
use quiche_moq.Moq.InTrack.{InTrack, mark_stream_readable}
use quiche_moq.Moq.InTrack.Order.{mark_stream_readable-IsOrdered}
use quiche_moq.Moq.InTrack
use quiche_moq.Moq.Session.{PendingSubscribe, Session, accepted, update, send_control_message}
use quiche_moq.Moq.Session.Handle.{adopt, alias_of, handle, on_accepted}
use quiche_moq.Moq.Session.Requests.{
  is_blocked, poll_subscribe_response, subscribe, subscribe_message, subscribed,
}
use quiche_moq.Moq.Session.Sound.Handle.{send_control_message-Keeps}

abbrev pub value : Reply ℕ → ℕ
value r = elim r [ ok n ↦ n | _ ↦ 0 ]

not_blocked : (a b : Bool) → (a && not b) ≡ false → (a ≡ false) ⊎ (b ≡ true)
not_blocked true true e = inr refl
not_blocked true false e = absurd (cc e)
not_blocked false b e = inl refl

-- A new track has the stream that waited for it, and no other.
adopt_readable :
    (a : ℕ) (x : Option ℕ) (i : ℕ)
    → (contains (adopt a (InTrack.new a) x).readable_streams i ≡ true) ↔ (x ≡ some i)
unfolding adopt InTrack.new
adopt_readable a none i = (λ e. absurd (cc e), λ e. absurd (cc e))
adopt_readable a (some id) i =
    let only : contains (mark_stream_readable id (InTrack.new a)).readable_streams i
        ≡ (id == i || false) =
      (mark_stream_readable-IsOrdered id (InTrack.new a) tt).1 i in
    (
      λ e. elim (Bool-cases (id == i)) [
        | inl z ↦ ap some ((==_iff id i).0 z)
        | inr z ↦ absurd (cc (rw z at only, e))
      ],
      λ e. let same : id ≡ i = cc e in only ∙ rw ((==_iff id i).1 same) refl,
    )

module _ {S : Type 0} (wt : Transport S) ⦃o : Octets⦄ where
  -- What a successful `subscribe` has done.
  pub subscribe_facts :
      (nt : NamespaceTrackname) (t u : Session × S) (id : ℕ)
      → subscribe wt nt t ≡ (u, ok id)
      → (is_blocked t.0 ≡ false) × (u.0 ≡ subscribed t.0) × (id ≡ t.0.next_request_id)
  unfolding subscribe
  subscribe_facts nt t u id e = elim (Bool-cases (is_blocked t.0)) [
    | inl z ↦ absurd (cc (rw z at e))
    | inr z ↦
        let cm = Enum.subscribe (subscribe_message t.0.next_request_id nt) in
        let same : (send_control_message wt cm t).0.0 ≡ t.0 =
          send_control_message-Keeps wt (λ s. s ≡ t.0) cm t refl in
        let (a, f, g) =
          after_ok (send_control_message wt cm t)
            (λ u t. ((subscribed t.0, t.1), ok t.0.next_request_id)) u id (rw z at e) in
        (
          z,
          sym (ap (λ (x : (Session × S) × Reply ℕ). x.0.0) g) ∙ ap subscribed same,
          sym (ap (λ (x : (Session × S) × Reply ℕ). value x.1) g)
              ∙ ap (λ (s : Session). s.next_request_id) same,
        )
  ]

  -- If subscribe returned an id, the quota of the peer covers it or is not looked at, the next request
  -- has the id two above, on 64 bits, and the subscription is pending under the id, with the id as the
  -- track alias that it asks for.
  pub subscribe_within_quota :
      (nt : NamespaceTrackname) (t u : Session × S) (id : ℕ)
      → subscribe wt nt t ≡ (u, ok id)
      → ((id ≤ t.0.max_request_id) ⊎ (t.0.config.ignore_max_request_quota ≡ true))
        × (u.0.next_request_id ≡ (id + 2) % 2 ^ 64)
        × (get u.0.pending_subscribe id ≡ some (record { track_alias = some id }))
  unfolding is_blocked subscribed
  subscribe_within_quota nt t u id e =
      let (b, s, i) = subscribe_facts nt t u id e in
      (
        within
            (not_blocked (ltb t.0.max_request_id t.0.next_request_id)
              t.0.config.ignore_max_request_quota b)
            i,
        ap (λ (s : Session). s.next_request_id) s ∙ ap (λ n. (n + 2) % 2 ^ 64) (sym i),
        ap (λ (s : Session). get s.pending_subscribe id) s
            ∙ subst
                (λ n.
                  get (insert n (record { track_alias = some n }) t.0.pending_subscribe) id
                  ≡ some (record { track_alias = some id }))
                i (get-insert_self id (record { track_alias = some id }) t.0.pending_subscribe),
      )
    where
      within :
          (ltb t.0.max_request_id t.0.next_request_id ≡ false)
            ⊎ (t.0.config.ignore_max_request_quota ≡ true)
          → id ≡ t.0.next_request_id
          → (id ≤ t.0.max_request_id) ⊎ (t.0.config.ignore_max_request_quota ≡ true)
      within (inl l) i = inl (omega (arith, ltb→le _ _ l, i))
      within (inr l) i = inr l

  -- After subscribe returned an id, a SUBSCRIBE_OK with that id, of which the session can tell the
  -- track alias, is handled without a panic: the track with that alias exists, and exactly the
  -- stream that waited for the alias, if any did, is among its readable streams and no longer
  -- waits, the subscription is active and no longer pending, and poll_subscribe_response returns
  -- the alias and the message the first time and nothing the second.
  pub subscribe_completes :
      (nt : NamespaceTrackname) (cm : SubscribeOkMessage) (t u : Session × S) (a : ℕ)
      → subscribe wt nt t ≡ (u, ok cm.request_id)
      → alias_of t.0.selected_version (record { track_alias = some cm.request_id }) cm ≡ some a
      → (v : Session × S) × (handle wt (Enum.subscribe_ok cm) u ≡ (v, ok tt))
        × (track : InTrack) × (get v.0.in_tracks a ≡ some track)
        × ((i : ℕ)
            → (contains track.readable_streams i ≡ true) ↔ (get t.0.pending_streams a ≡ some i))
        × (get v.0.pending_streams a ≡ none)
        × (get v.0.active_subscriptions cm.request_id ≡ some a)
        × (get v.0.pending_subscribe cm.request_id ≡ none)
        × ((poll_subscribe_response cm.request_id v.0).1 ≡ some (accepted a cm))
        × ((poll_subscribe_response cm.request_id (poll_subscribe_response cm.request_id v.0).0).1
            ≡ none)
  unfolding handle on_accepted poll_subscribe_response subscribed
  subscribe_completes nt cm t u a e g =
      let id = cm.request_id in
      let (b, s, i) = subscribe_facts nt t u id e in
      let (q, n, pending) = subscribe_within_quota nt t u id e in
      let version : alias_of u.0.selected_version (record { track_alias = some id }) cm ≡ some a =
        ap (λ (s : Session). alias_of s.selected_version (record { track_alias = some id }) cm) s
        ∙ g in
      (
        (on_accepted id a cm u.0, u.1),
        ap
              (λ (x : Option PendingSubscribe). after (unwrap x u) (λ req.
                unwrap (alias_of u.0.selected_version req cm) >>= λ a.
                update (on_accepted id a cm)))
              pending
            ∙ ap (λ (x : Option ℕ). after (unwrap x u) (λ a. update (on_accepted id a cm))) version,
        adopt a (InTrack.new a) (get t.0.pending_streams a),
        get-insert_self a _ u.0.in_tracks
            ∙ ap (λ (s : Session). some (adopt a (InTrack.new a) (get s.pending_streams a))) s,
        adopt_readable a (get t.0.pending_streams a),
        get-remove_self a u.0.pending_streams,
        get-insert_self id a u.0.active_subscriptions,
        get-remove_self id u.0.pending_subscribe,
        get-insert_self id (accepted a cm) u.0.pending_subscribe_responses,
        get-remove_self id _,
      )
