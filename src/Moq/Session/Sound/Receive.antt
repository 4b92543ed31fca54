-- ===== src/Moq/Session/Sound/Receive.antt =====
-- Reading leaves a sound session sound, and finds the streams that it reads from.
use quiche_moq.Common.{
  ==_iff, Bool-cases, List, Option, [], ap, contains, if◌then◌else◌, inl, inr, none, refl, some,
  suc, sym, true, zero, ℕ, ◌==◌, ◌∙◌, ◌∷◌, ◌≡◌,
}
use quiche_moq.Common.Map.{get}
use quiche_moq.Common.Outcome.{Outcome}
use quiche_moq.Octets.{Octets}
use quiche_moq.Wire.Object.{ObjectHeader}
use quiche_moq.Webtransport.{Transport}
use quiche_moq.Moq.Error.{Error}
use quiche_moq.Moq.Action.{Action, Keeps, Reply, ok, err, panicked, unfinished}
use quiche_moq.Moq.InStream.{InStream}
use quiche_moq.Moq.InStream
use quiche_moq.Moq.InStream.Kept.{alias, alias-same, read_obj_hdr-header, read_obj_pld-header}
use quiche_moq.Moq.InTrack.{InTrack, current_stream, is_fully_done}
use quiche_moq.Moq.Session.{Session}
use quiche_moq.Moq.Session.Linked.{alias_at, finish-IsLinked, put-IsLinked}
use quiche_moq.Moq.Session.Receive.{
  after_header, after_payload, finish_stream, next_stream, put_stream, read_obj_hdr, read_obj_pld,
  read_stream, read_streams, stream_of,
}
use quiche_moq.Moq.Session.Sound.{IsSound}
use quiche_moq.Moq.Session.Sound.Handle.{On}

pub current_stream-contains :
    (track : InTrack) (id : ℕ)
    → current_stream track ≡ some id
    → contains track.readable_streams id ≡ true
unfolding current_stream
current_stream-contains track id e = cases track.readable_streams e
  where
    cases :
        (xs : List ℕ)
        → elim xs as (λ _. Option ℕ) [ [] ↦ none | x ∷ xs ↦ some x ] ≡ some id
        → contains xs id ≡ true
    cases [] e = absurd (cc e)
    cases (x ∷ xs) e =
        let same : x ≡ id = cc e in
        let here : (x == id) ≡ true = (==_iff x id).1 same in rw here refl

pub next_stream_current :
    (track : InTrack) (id : ℕ) → next_stream track ≡ ok id → current_stream track ≡ some id
unfolding next_stream
next_stream_current track id e = cases (current_stream track) e
  where
    cases :
        (x : Option ℕ)
        → elim x as (λ _. Reply ℕ) [
          | some id ↦ ok id
          | none ↦ if is_fully_done track then err Error.fin else err Error.done
        ]
          ≡ ok id
        → x ≡ some id
    cases (some i) e = ap (λ r. elim r as (λ _. Option ℕ) [ ok a ↦ some a | _ ↦ none ]) e
    cases none e = elim (Bool-cases (is_fully_done track)) [
      | inl z ↦ absurd (cc (rw z at e))
      | inr z ↦ absurd (cc (rw z at e))
    ]

alias_at_found :
    (s : Session) (id a : ℕ) (t : InStream)
    → get s.in_streams id ≡ some t
    → alias_at s.in_streams id ≡ some a
    → alias t ≡ some a
unfolding alias_at
alias_at_found s id a t e f =
    sym
      (ap (λ (x : Option InStream). elim x as (λ _. Option ℕ) [ none ↦ none | some t ↦ alias t ]) e)
    ∙ f

-- A stream that is read from keeps its header.
put_stream-IsSound :
    (id : ℕ) (t u : InStream) (s : Session)
    → get s.in_streams id ≡ some t
    → u.subgroup_header ≡ t.subgroup_header
    → IsSound s
    → IsSound (put_stream id u s)
unfolding put_stream
put_stream-IsSound id t u s e h (i, k, l) =
    (i, k, put-IsLinked _ _ _ l id u (λ a f. alias-same u t h ∙ alias_at_found s id a t e f))

pub finish_stream-IsSound :
    (a id : ℕ) (track : InTrack) (s : Session)
    → get s.in_tracks a ≡ some track
    → current_stream track ≡ some id
    → IsSound s
    → IsSound (finish_stream a id s)
unfolding finish_stream
finish_stream-IsSound a id track s e c (i, k, l) =
    (i, k, finish-IsLinked _ _ _ l a id track e (current_stream-contains track id c))

-- The stream that `stream_of` answers is the current one of the track.
abbrev Found : ℕ → Session → Option (ℕ × InStream) → Type 0
Found a s none = Unit {0}
Found a s (some (id, t)) =
    (track : InTrack) × (get s.in_tracks a ≡ some track)
    × (current_stream track ≡ some id)
    × (get s.in_streams id ≡ some t)

stream_of_facts : (a : ℕ) (s : Session) → Found a s (stream_of a s)
unfolding stream_of
stream_of_facts a s = outer (get s.in_tracks a) refl
  where
    with_id : (id : ℕ) → Option InStream → Option (ℕ × InStream)
    with_id id y = elim y [ none ↦ none | some t ↦ some (id, t) ]

    by_id : Option ℕ → Option (ℕ × InStream)
    by_id x = elim x [ none ↦ none | some id ↦ with_id id (get s.in_streams id) ]

    innermost :
        (track : InTrack)
        → get s.in_tracks a ≡ some track
        → (id : ℕ) → current_stream track ≡ some id
        → (y : Option InStream) → get s.in_streams id ≡ y
        → Found a s (with_id id y)
    innermost track e id f none g = tt
    innermost track e id f (some t) g = (track, e, f, g)

    inner :
        (track : InTrack)
        → get s.in_tracks a ≡ some track
        → (x : Option ℕ) → current_stream track ≡ x
        → Found a s (by_id x)
    inner track e none f = tt
    inner track e (some id) f = innermost track e id f (get s.in_streams id) refl

    outer :
        (x : Option InTrack)
        → get s.in_tracks a ≡ x
        → Found a s (elim x [ none ↦ none | some track ↦ by_id (current_stream track) ])
    outer none e = tt
    outer (some track) e = inner track e (current_stream track) refl

module _ {S : Type 0} where
  after_header-IsSound :
      (again : Action (Session × S) ObjectHeader) (a id : ℕ) (track : InTrack) (t : InStream)
      (s : Session) (c : S) (x : Option (InStream × S × Outcome Error ObjectHeader))
      → Keeps (On IsSound) again
      → get s.in_tracks a ≡ some track
      → current_stream track ≡ some id
      → get s.in_streams id ≡ some t
      → ((r : InStream × S × Outcome Error ObjectHeader)
          → x ≡ some r
          → r.0.subgroup_header ≡ t.subgroup_header)
      → IsSound s
      → IsSound (after_header again a id (s, c) x).0.0
  unfolding after_header
  after_header-IsSound again a id track t s c none k e f g h p = p
  after_header-IsSound again a id track t s c (some (u, c', Outcome.ok v)) k e f g h p =
      put_stream-IsSound id t u s g (h _ refl) p
  after_header-IsSound again a id track t s c (some (u, c', Outcome.err Error.fin)) k e f g h p =
      k (finish_stream a id s, c') (finish_stream-IsSound a id track s e f p)
  after_header-IsSound again a id track t s c
        (some (u, c', Outcome.err Error.partial_control_message)) k e f g h p =
      put_stream-IsSound id t u s g (h _ refl) p
  after_header-IsSound again a id track t s c (some (u, c', Outcome.err Error.unimplemented)) k e f
        g h p =
      put_stream-IsSound id t u s g (h _ refl) p
  after_header-IsSound again a id track t s c (some (u, c', Outcome.err Error.done)) k e f g h p =
      put_stream-IsSound id t u s g (h _ refl) p
  after_header-IsSound again a id track t s c
        (some (u, c', Outcome.err Error.insufficient_capacity)) k e f g h p =
      put_stream-IsSound id t u s g (h _ refl) p
  after_header-IsSound again a id track t s c (some (u, c', Outcome.err Error.object_to_long)) k e f
        g h p =
      put_stream-IsSound id t u s g (h _ refl) p
  after_header-IsSound again a id track t s c (some (u, c', Outcome.err Error.unfinished_payload)) k
        e f g h p =
      put_stream-IsSound id t u s g (h _ refl) p
  after_header-IsSound again a id track t s c (some (u, c', Outcome.err Error.exceeded_payload)) k e
        f g h p =
      put_stream-IsSound id t u s g (h _ refl) p
  after_header-IsSound again a id track t s c (some (u, c', Outcome.err Error.request_blocked)) k e
        f g h p =
      put_stream-IsSound id t u s g (h _ refl) p
  after_header-IsSound again a id track t s c (some (u, c', Outcome.err (Error.wt i))) k e f g h p =
      put_stream-IsSound id t u s g (h _ refl) p
  after_header-IsSound again a id track t s c (some (u, c', Outcome.err (Error.wire i))) k e f g h
        p =
      put_stream-IsSound id t u s g (h _ refl) p
  after_header-IsSound again a id track t s c (some (u, c', Outcome.panicked)) k e f g h p =
      put_stream-IsSound id t u s g (h _ refl) p

  after_payload-IsSound :
      (a id : ℕ) (track : InTrack) (t : InStream) (s : Session)
      (x : InStream × S × List ℕ × Outcome Error ℕ)
      → get s.in_tracks a ≡ some track
      → current_stream track ≡ some id
      → get s.in_streams id ≡ some t
      → x.0.subgroup_header ≡ t.subgroup_header
      → IsSound s
      → IsSound (after_payload a id s x).0.0
  unfolding after_payload
  after_payload-IsSound a id track t s (u, c, b, Outcome.ok n) e f g h p =
      put_stream-IsSound id t u s g h p
  after_payload-IsSound a id track t s (u, c, b, Outcome.err Error.fin) e f g h p =
      finish_stream-IsSound a id track s e f p
  after_payload-IsSound a id track t s (u, c, b, Outcome.err Error.partial_control_message) e f g h
        p =
      put_stream-IsSound id t u s g h p
  after_payload-IsSound a id track t s (u, c, b, Outcome.err Error.unimplemented) e f g h p =
      put_stream-IsSound id t u s g h p
  after_payload-IsSound a id track t s (u, c, b, Outcome.err Error.done) e f g h p =
      put_stream-IsSound id t u s g h p
  after_payload-IsSound a id track t s (u, c, b, Outcome.err Error.insufficient_capacity) e f g h
        p =
      put_stream-IsSound id t u s g h p
  after_payload-IsSound a id track t s (u, c, b, Outcome.err Error.object_to_long) e f g h p =
      put_stream-IsSound id t u s g h p
  after_payload-IsSound a id track t s (u, c, b, Outcome.err Error.unfinished_payload) e f g h p =
      put_stream-IsSound id t u s g h p
  after_payload-IsSound a id track t s (u, c, b, Outcome.err Error.exceeded_payload) e f g h p =
      put_stream-IsSound id t u s g h p
  after_payload-IsSound a id track t s (u, c, b, Outcome.err Error.request_blocked) e f g h p =
      put_stream-IsSound id t u s g h p
  after_payload-IsSound a id track t s (u, c, b, Outcome.err (Error.wt i)) e f g h p =
      put_stream-IsSound id t u s g h p
  after_payload-IsSound a id track t s (u, c, b, Outcome.err (Error.wire i)) e f g h p =
      put_stream-IsSound id t u s g h p
  after_payload-IsSound a id track t s (u, c, b, Outcome.panicked) e f g h p =
      put_stream-IsSound id t u s g h p

module _ {S : Type 0} (wt : Transport S) where
  module _ ⦃o : Octets⦄ where
    read_stream-IsSound :
        (fuel : ℕ) (again : Action (Session × S) ObjectHeader) (a : ℕ) (track : InTrack)
        (x : Reply ℕ) (s : Session) (c : S)
        → Keeps (On IsSound) again
        → get s.in_tracks a ≡ some track
        → ((id : ℕ) → x ≡ ok id → current_stream track ≡ some id)
        → IsSound s
        → IsSound (read_stream wt fuel again a x (s, c)).0.0
    unfolding read_stream
    read_stream-IsSound fuel again a track (ok id) s c k e f p = cases (get s.in_streams id) refl
      where
        cases :
            (x : Option InStream)
            → get s.in_streams id ≡ x
            → IsSound
                (elim x as (λ _. (Session × S) × Reply ObjectHeader) [
                  | none ↦ ((s, c), panicked)
                  | some t ↦ after_header again a id (s, c) (InStream.read_obj_hdr wt fuel t c)
                ]).0.0
        cases none g = p
        cases (some t) g =
            after_header-IsSound again a id track t s c (InStream.read_obj_hdr wt fuel t c) k e
              (f id refl) g (read_obj_hdr-header wt fuel t c) p
    read_stream-IsSound fuel again a track (err i) s c k e f p = p
    read_stream-IsSound fuel again a track panicked s c k e f p = p
    read_stream-IsSound fuel again a track unfinished s c k e f p = p

    read_streams-Keeps : (fuel rounds a : ℕ) → Keeps (On IsSound) (read_streams wt fuel rounds a)
    unfolding read_streams
    read_streams-Keeps fuel zero a t p = p
    read_streams-Keeps fuel (suc rounds) a (s, c) p =
        cases (read_streams-Keeps fuel rounds a) (get s.in_tracks a) refl
      where
        cases :
            Keeps (On IsSound) (read_streams wt fuel rounds a)
            → (x : Option InTrack) → get s.in_tracks a ≡ x
            → IsSound
                (elim x as (λ _. (Session × S) × Reply ObjectHeader) [
                  | none ↦ ((s, c), err Error.done)
                  | some track ↦
                      read_stream wt fuel
                        (read_streams wt fuel rounds a)
                        a
                        (next_stream track)
                        (s, c)
                ]).0.0
        cases k none e = p
        cases k (some track) e =
            read_stream-IsSound fuel (read_streams wt fuel rounds a) a track (next_stream track) s c
              k e (next_stream_current track) p

    pub read_obj_hdr-Keeps :
        (fuel rounds a : ℕ) → Keeps (On IsSound) (read_obj_hdr wt fuel rounds a)
    unfolding read_obj_hdr
    read_obj_hdr-Keeps fuel rounds a = read_streams-Keeps fuel rounds a

  pub read_obj_pld-IsSound :
      (buf : List ℕ) (a : ℕ) (t : Session × S) → IsSound t.0 → IsSound (read_obj_pld wt buf a t).0.0
  unfolding read_obj_pld
  read_obj_pld-IsSound buf a (s, c) p = cases (stream_of a s) (stream_of_facts a s)
    where
      cases :
          (x : Option (ℕ × InStream))
          → Found a s x
          → IsSound
              (elim x as (λ _. (Session × S) × List ℕ × Reply ℕ) [
                | none ↦ ((s, c), buf, panicked)
                | some (id, t) ↦ after_payload a id s (InStream.read_obj_pld wt buf t c)
              ]).0.0
      cases none e = p
      cases (some (id, t)) (track, e, f, g) =
          after_payload-IsSound a id track t s (InStream.read_obj_pld wt buf t c) e f g
            (read_obj_pld-header wt buf t c) p
