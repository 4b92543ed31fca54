-- ===== src/Moq/Session/Sound/Poll.antt =====
-- What arrives leaves a sound session sound.
use quiche_moq.Common.{
  ==_iff, Bool, List, Option, [], false, if◌then◌else◌, length, none, refl, some, subst, suc, true,
  zero, ℕ, ◌-◌, ◌==◌, ◌∙◌, ◌∷◌, ◌≡◌,
}
use quiche_moq.Common.Map.{get, insert}
use quiche_moq.Common.Outcome.{Outcome}
use quiche_moq.Octets.{Octets, Reader, Result}
use quiche_moq.Octets
use quiche_moq.ShortBuf.{ShortBuf, buffer, consume, fill}
use quiche_moq.Wire.Subgroup.{SubgroupHeader}
use quiche_moq.Wire.Control.Enum.{ControlMessageEnum}
use quiche_moq.Wire.Control.Enum
use quiche_moq.Webtransport.{Transport, Error as WtError}
use quiche_moq.Moq.Error.{Error}
use quiche_moq.Moq.Action.{
  Action, Keeps, Reply, after-Keeps, err, ok, panicked, unfinished, unwrapped, unwrap_then,
  if-Keeps,
}
use quiche_moq.Moq.InStream.{InStream, mark_readable}
use quiche_moq.Moq.InStream
use quiche_moq.Moq.InStream.Kept.{alias, alias-same, read-alias}
use quiche_moq.Moq.InTrack.{InTrack, mark_stream_readable}
use quiche_moq.Moq.Session.{Session, version_or_setup}
use quiche_moq.Moq.Session.Handle.{handle}
use quiche_moq.Moq.Session.Linked.{
  alias_at, alias_at-insert, mark-IsLinked, put-IsLinked, wait-IsLinked,
}
use quiche_moq.Moq.Session.Poll.{
  after_decode, after_fill, after_message, after_read, close, find_bidi, next_control_message, poll,
  poll_data, poll_opened, poll_stream, poll_streams, read_messages, route, stream_or_new,
  take_message,
}
use quiche_moq.Moq.Session.Sound.{IsSound}
use quiche_moq.Moq.Session.Sound.Handle.{On, handle-Keeps}

module _ {S : Type 0} where
  take_message-Keeps :
      (rest : Reader) (cm : ControlMessageEnum) → Keeps (On {S = S} IsSound) (take_message rest cm)
  unfolding take_message
  take_message-Keeps rest cm (s, c) p =
      cases (consume (length (buffer s.ctrl_buf) - length rest) s.ctrl_buf)
    where
      cases :
          (x : Option ShortBuf)
          → IsSound
              (elim x as (λ _. (Session × S) × Reply ControlMessageEnum) [
                | none ↦ ((s, c), panicked)
                | some buf ↦ ((record s { ctrl_buf = buf }, c), ok cm)
              ]).0.0
      cases none = p
      cases (some b) = p

  after_fill-Keeps :
      (again : Action (Session × S) ControlMessageEnum) (s : Session)
      (x : ShortBuf × S × Outcome WtError (Unit {0}))
      → Keeps (On IsSound) again
      → IsSound s
      → IsSound (after_fill again s x).0.0
  unfolding after_fill
  after_fill-Keeps again s (b, c, Outcome.ok u) k p = k (record s { ctrl_buf = b }, c) p
  after_fill-Keeps again s (b, c, Outcome.err e) k p = p
  after_fill-Keeps again s (b, c, Outcome.panicked) k p = p

  route-IsSound :
      (id : ℕ) (x : Option SubgroupHeader) (s : Session) (c : S)
      → ((h : SubgroupHeader) → x ≡ some h → alias_at s.in_streams id ≡ some h.track_alias)
      → IsSound s
      → IsSound (route id x (s, c)).0.0
  unfolding route
  route-IsSound id none s c l p = p
  route-IsSound id (some h) s c l (i, t, k) = cases (get s.in_tracks h.track_alias) refl
    where
      s' : Session
      s' = record s { pending_streams = insert h.track_alias id s.pending_streams }

      waiting :
          (x : Option ℕ)
          → IsSound s'
          → IsSound
              (elim x as (λ _. (Session × S) × Reply Bool) [
                | none ↦ ((s', c), ok true)
                | some other ↦ ((s', c), panicked)
              ]).0.0
      waiting none p = p
      waiting (some j) p = p

      cases :
          (x : Option InTrack)
          → get s.in_tracks h.track_alias ≡ x
          → IsSound
              (elim x as (λ _. (Session × S) × Reply Bool) [
                | some track ↦ (
                  (
                    record s {
                      in_tracks = insert h.track_alias (mark_stream_readable id track) s.in_tracks;
                    },
                    c,
                  ),
                  ok true,
                )
                | none ↦ elim (get s.pending_streams h.track_alias) [
                  | none ↦ ((s', c), ok true)
                  | some other ↦ ((s', c), panicked)
                ]
              ]).0.0
      cases (some track) e = (i, t, mark-IsLinked _ _ _ k h.track_alias id track e (l h refl))
      cases none e =
          waiting (get s.pending_streams h.track_alias)
            (i, t, wait-IsLinked _ _ _ k h.track_alias id e (l h refl))

header_at :
    (id : ℕ) (t : InStream) (s : Session) (h : SubgroupHeader)
    → t.subgroup_header ≡ some h
    → alias_at (insert id t s.in_streams) id ≡ some h.track_alias
unfolding alias
header_at id t s h e = alias_at-insert id id t s.in_streams ∙ rw ((==_iff id id).1 refl, e) refl

after_read-IsSound :
    {S : Type 0} (id : ℕ) (s : Session) (x : InStream × S × Outcome Octets.Error (Unit {0}))
    → ((a : ℕ) → alias_at s.in_streams id ≡ some a → alias x.0 ≡ some a)
    → IsSound s
    → IsSound (after_read {S = S} id s x).0.0
unfolding after_read mark_readable
after_read-IsSound id s (t, c, Outcome.ok u) same (i, k, l) =
    route-IsSound id t.subgroup_header
      (record s { in_streams = insert id (record t { readable = true }) s.in_streams }) c
      (header_at id (record t { readable = true }) s)
      (
        i,
        k,
        put-IsLinked _ _ _ l id (record t { readable = true })
            (λ a e. alias-same (record t { readable = true }) t refl ∙ same a e),
      )
after_read-IsSound id s (t, c, Outcome.err e) same (i, k, l) =
    (i, k, put-IsLinked _ _ _ l id t same)
after_read-IsSound id s (t, c, Outcome.panicked) same (i, k, l) =
    (i, k, put-IsLinked _ _ _ l id t same)

stream_or_new-alias :
    (id : ℕ) (s : Session) (t : InStream)
    → stream_or_new id s ≡ some t
    → (a : ℕ) → alias_at s.in_streams id ≡ some a
    → alias t ≡ some a
unfolding stream_or_new alias_at
stream_or_new-alias id s t e a f = cases (get s.in_streams id) e f
  where
    cases :
        (x : Option InStream)
        → elim x [
          | some t ↦ some t
          | none ↦ elim s.selected_version [
            | none ↦ none
            | some v ↦ some (InStream.new id s.webtransport_session_id v)
          ]
        ]
          ≡ some t
        → elim x [ none ↦ none | some t ↦ alias t ] ≡ some a
        → alias t ≡ some a
    cases none e f = absurd (cc f)
    cases (some u) e f = let same : u ≡ t = cc e in subst (λ t. alias t ≡ some a) same f

module _ {S : Type 0} (wt : Transport S) ⦃o : Octets⦄ where
  after_decode-Keeps :
      (again : Action (Session × S) ControlMessageEnum) (id : ℕ)
      (x : Result (ControlMessageEnum × Reader))
      → Keeps (On IsSound) again
      → Keeps (On IsSound) (after_decode wt again id x)
  unfolding after_decode
  after_decode-Keeps again id (Octets.ok (cm, rest)) k t p = take_message-Keeps rest cm t p
  after_decode-Keeps again id (Octets.err Octets.buffer_too_short) k t p =
      after_fill-Keeps again t.0
        (fill (wt.recv_stream id t.0.webtransport_session_id) t.0.ctrl_buf t.1) k p
  after_decode-Keeps again id (Octets.err Octets.from_utf8_error) k t p = p
  after_decode-Keeps again id (Octets.err Octets.protocol_violation) k t p = p
  after_decode-Keeps again id Octets.panic k t p = p

  read_messages-Keeps : (fuel id : ℕ) → Keeps (On IsSound) (read_messages wt fuel id)
  unfolding read_messages
  read_messages-Keeps zero id t p = p
  read_messages-Keeps (suc fuel) id t p =
      after_decode-Keeps (read_messages wt fuel id) id
        (Enum.from_bytes (version_or_setup t.0) (buffer t.0.ctrl_buf)) (read_messages-Keeps fuel id)
        t p

  next_control_message-Keeps : (fuel : ℕ) → Keeps (On IsSound) (next_control_message wt fuel)
  unfolding next_control_message
  next_control_message-Keeps fuel t p =
      unwrap_then (On IsSound) t.0.control_stream_id (read_messages wt fuel) t p
        (λ id e. read_messages-Keeps fuel id t p)

  close-Keeps : Keeps (On IsSound) (close wt)
  unfolding close
  close-Keeps t p =
      after-Keeps (On IsSound)
        (
          (t.0, (wt.close_session t.0.webtransport_session_id 0x3 t.1).0),
          unwrapped (wt.close_session t.0.webtransport_session_id 0x3 t.1).1,
        )
        (λ u t. ((record t.0 { closed = true }, t.1), ok false)) p (λ u t q. q)

  after_message-Keeps :
      (x : (Session × S) × Reply ControlMessageEnum)
      → IsSound x.0.0
      → IsSound (after_message wt x).0.0
  unfolding after_message
  after_message-Keeps (t, ok cm) p =
      after-Keeps (On IsSound) (handle wt cm t) (λ u t. (t, ok true)) (handle-Keeps wt cm t p)
        (λ u t q. q)
  after_message-Keeps (t, err (Error.wire Octets.buffer_too_short)) p = p
  after_message-Keeps (t, err (Error.wire Octets.from_utf8_error)) p = p
  after_message-Keeps (t, err (Error.wire Octets.protocol_violation)) p = close-Keeps t p
  after_message-Keeps (t, err (Error.wt WtError.done)) p = p
  after_message-Keeps (t, err (Error.wt WtError.missing_session_id)) p = p
  after_message-Keeps (t, err (Error.wt WtError.no_stream_state)) p = p
  after_message-Keeps (t, err (Error.wt WtError.insufficient_capacity)) p = p
  after_message-Keeps (t, err (Error.wt WtError.fin)) p = p
  after_message-Keeps (t, err (Error.wt (WtError.stream_reset i))) p = p
  after_message-Keeps (t, err (Error.wt (WtError.invalid_stream_state i))) p = p
  after_message-Keeps (t, err Error.partial_control_message) p = p
  after_message-Keeps (t, err Error.unimplemented) p = p
  after_message-Keeps (t, err Error.done) p = p
  after_message-Keeps (t, err Error.fin) p = p
  after_message-Keeps (t, err Error.insufficient_capacity) p = p
  after_message-Keeps (t, err Error.object_to_long) p = p
  after_message-Keeps (t, err Error.unfinished_payload) p = p
  after_message-Keeps (t, err Error.exceeded_payload) p = p
  after_message-Keeps (t, err Error.request_blocked) p = p
  after_message-Keeps (t, panicked) p = p
  after_message-Keeps (t, unfinished) p = p

  poll_data-Keeps : (id : ℕ) → Keeps (On IsSound) (poll_data wt id)
  unfolding poll_data
  poll_data-Keeps id (s, c) p = cases (stream_or_new id s) refl
    where
      cases :
          (x : Option InStream)
          → stream_or_new id s ≡ x
          → IsSound
              (elim x as (λ _. (Session × S) × Reply Bool) [
                | none ↦ ((s, c), panicked)
                | some t ↦ after_read id s (InStream.read wt t c)
              ]).0.0
      cases none e = p
      cases (some t) e =
          after_read-IsSound id s (InStream.read wt t c)
            (λ a f. read-alias wt t c a (stream_or_new-alias id s t e a f)) p

  poll_stream-Keeps : (fuel control id : ℕ) → Keeps (On IsSound) (poll_stream wt fuel control id)
  unfolding poll_stream
  poll_stream-Keeps fuel control id =
      if-Keeps (On IsSound) (id == control) (λ t. after_message wt (next_control_message wt fuel t))
        (poll_data wt id)
        (λ t p.
          after_message-Keeps (next_control_message wt fuel t)
            (next_control_message-Keeps fuel t p))
        (poll_data-Keeps id)

  poll_streams-Keeps :
      (fuel control : ℕ) (ids : List ℕ) → Keeps (On IsSound) (poll_streams wt fuel control ids)
  unfolding poll_streams
  poll_streams-Keeps fuel control [] t p = p
  poll_streams-Keeps fuel control (id ∷ ids) t p =
      after-Keeps (On IsSound) (poll_stream wt fuel control id t)
        (λ go t. if go then poll_streams wt fuel control ids t else (t, ok tt))
        (poll_stream-Keeps fuel control id t p)
        (λ go.
          if-Keeps (On IsSound) go (poll_streams wt fuel control ids) (λ t. (t, ok tt))
            (poll_streams-Keeps fuel control ids) (λ t q. q))

  poll_opened-Keeps : (fuel : ℕ) (x : Option ℕ) → Keeps (On IsSound) (poll_opened wt fuel x)
  unfolding poll_opened
  poll_opened-Keeps fuel (some id) (s, c) p =
      poll_streams-Keeps fuel id (wt.readable_streams s.webtransport_session_id c) (s, c) p
  poll_opened-Keeps fuel none (s, c) p =
      cases (find_bidi (wt.readable_streams s.webtransport_session_id c))
    where
      ids : List ℕ
      ids = wt.readable_streams s.webtransport_session_id c

      cases :
          (x : Option ℕ)
          → IsSound
              (elim x as (λ _. (Session × S) × Reply (Unit {0})) [
                | none ↦ ((s, c), ok tt)
                | some id ↦
                    poll_streams wt fuel id ids (record s { control_stream_id = some id }, c)
              ]).0.0
      cases none = p
      cases (some id) =
          poll_streams-Keeps fuel id ids (record s { control_stream_id = some id }, c) p

  pub poll-Keeps : (fuel : ℕ) → Keeps (On IsSound) (poll wt fuel)
  unfolding poll
  poll-Keeps fuel t p =
      if-Keeps (On IsSound) t.0.closed (λ t. (t, ok tt)) (poll_opened wt fuel t.0.control_stream_id)
        (λ t q. q) (poll_opened-Keeps fuel t.0.control_stream_id) t p
