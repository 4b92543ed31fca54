-- ===== src/Moq/Session/Poll.antt =====
-- quiche_moq/src/session.rs: what arrives on the streams of a session.
use quiche_moq.Common.{
  Bool, List, Option, [], false, if◌then◌else◌, length, none, some, suc, true, zero, ℕ, ◌-◌, ◌==◌,
  ◌∷◌,
}
use quiche_moq.Common.Map.{get, insert}
use quiche_moq.Common.Outcome.{Outcome}
use quiche_moq.Octets.{Octets, Reader, Result}
use quiche_moq.Octets
use quiche_moq.ShortBuf.{ShortBuf, buffer, consume, fill}
use quiche_moq.StreamId.{is_bidi}
use quiche_moq.Wire.Subgroup.{SubgroupHeader}
use quiche_moq.Wire.Control.Enum.{ControlMessageEnum}
use quiche_moq.Wire.Control.Enum
use quiche_moq.Webtransport.{Transport, Error as WtError}
use quiche_moq.Moq.Error.{Error}
use quiche_moq.Moq.Action.{
  Action, Reply, ok, err, panicked, unfinished, unwrap, unwrapped, after, ◌>>=◌,
}
use quiche_moq.Moq.InStream.{InStream, mark_readable}
use quiche_moq.Moq.InStream
use quiche_moq.Moq.InTrack.{mark_stream_readable}
use quiche_moq.Moq.Session.{Session, self, version_or_setup}
use quiche_moq.Moq.Session.Handle.{handle}

-- `self.ctrl_buf.consume(o.off())`, where `rest` is left of the bytes in the buffer.
unfoldable pub take_message :
    {S : Type 0} → Reader → ControlMessageEnum → Action (Session × S) ControlMessageEnum
unfolding consume
take_message rest cm (s, c) = elim (consume (length (buffer s.ctrl_buf) - length rest) s.ctrl_buf) [
  | none ↦ ((s, c), panicked)
  | some buf ↦ ((record s { ctrl_buf = buf }, c), ok cm)
]

-- `fill(...)?` and the next round, `again`.
unfoldable pub after_fill :
    {S : Type 0}
    → Action (Session × S) ControlMessageEnum
    → Session
    → ShortBuf × S × Outcome WtError (Unit {0})
    → (Session × S) × Reply ControlMessageEnum
after_fill again s (buf, c, Outcome.ok u) = again (record s { ctrl_buf = buf }, c)
after_fill again s (buf, c, Outcome.err e) = ((record s { ctrl_buf = buf }, c), err (Error.wt e))
after_fill again s (buf, c, Outcome.panicked) = ((record s { ctrl_buf = buf }, c), panicked)

-- The first stream of both directions.
unfoldable pub find_bidi : List ℕ → Option ℕ
unfolding is_bidi
find_bidi [] = none
find_bidi (id ∷ ids) = if is_bidi id then some id else find_bidi ids

-- `self.in_streams.get_mut(&stream_id)`, or a new stream; `none` where there is no version yet.
unfoldable pub stream_or_new : ℕ → Session → Option InStream
stream_or_new stream_id s = elim (get s.in_streams stream_id) [
  | some t ↦ some t
  | none ↦ elim s.selected_version [
    | none ↦ none
    | some v ↦ some (InStream.new stream_id s.webtransport_session_id v)
  ]
]

-- What is read of a stream is told to the track that it belongs to.
unfoldable pub route : {S : Type 0} → ℕ → Option SubgroupHeader → Action (Session × S) Bool
route stream_id none t = (t, ok true)
route stream_id (some h) (s, c) = elim (get s.in_tracks h.track_alias) [
  | some track ↦ (
    (
      record s {
        in_tracks = insert h.track_alias (mark_stream_readable stream_id track) s.in_tracks;
      },
      c,
    ),
    ok true,
  )
  | none ↦
      let s' = record s { pending_streams = insert h.track_alias stream_id s.pending_streams } in
      elim (get s.pending_streams h.track_alias) [
        | none ↦ ((s', c), ok true)
        | some other ↦ ((s', c), panicked)
      ]
]

-- `stream.read(...).unwrap(); stream.mark_readable()`, and the track of the stream.
unfoldable pub after_read :
    {S : Type 0}
    → ℕ
    → Session
    → InStream × S × Outcome Octets.Error (Unit {0})
    → (Session × S) × Reply Bool
unfolding route mark_readable
after_read stream_id s (t, c, Outcome.ok u) =
    route stream_id t.subgroup_header
      (record s { in_streams = insert stream_id (mark_readable t) s.in_streams }, c)
after_read stream_id s (t, c, Outcome.err e) =
    ((record s { in_streams = insert stream_id t s.in_streams }, c), panicked)
after_read stream_id s (t, c, Outcome.panicked) =
    ((record s { in_streams = insert stream_id t s.in_streams }, c), panicked)

module _ {S : Type 0} (wt : Transport S) ⦃o : Octets⦄ where
  unfoldable pub after_decode :
      Action (Session × S) ControlMessageEnum
      → ℕ
      → Result (ControlMessageEnum × Reader)
      → Action (Session × S) ControlMessageEnum
  unfolding take_message after_fill
  after_decode again id (Octets.ok (cm, rest)) t = take_message rest cm t
  after_decode again id (Octets.err Octets.buffer_too_short) (s, c) =
      after_fill again s (fill (wt.recv_stream id s.webtransport_session_id) s.ctrl_buf c)
  after_decode again id _ t = (t, panicked)

  -- The loop of `next_control_message`, on fuel.
  unfoldable pub read_messages : ℕ → ℕ → Action (Session × S) ControlMessageEnum
  unfolding after_decode
  read_messages zero id t = (t, unfinished)
  read_messages (suc fuel) id t =
      after_decode (read_messages fuel id) id
        (Enum.from_bytes (version_or_setup t.0) (buffer t.0.ctrl_buf)) t

  unfoldable pub next_control_message : ℕ → Action (Session × S) ControlMessageEnum
  unfolding read_messages
  next_control_message fuel = do
    s ← self
    control_stream_id ← unwrap s.control_stream_id
    read_messages fuel control_stream_id

  -- `close_session(...).unwrap(); self.closed = true; return`
  unfoldable pub close : Action (Session × S) Bool
  close (s, c) =
      let r = wt.close_session s.webtransport_session_id 0x3 c in
      after ((s, r.0), unwrapped r.1) (λ u t. ((record t.0 { closed = true }, t.1), ok false))

  -- The `match` on what `next_control_message` returns; `false` ends the poll.
  unfoldable pub after_message :
      (Session × S) × Reply ControlMessageEnum → (Session × S) × Reply Bool
  unfolding handle close
  after_message (t, ok cm) = after (handle wt cm t) (λ u t. (t, ok true))
  after_message (t, err Error.unimplemented) = (t, ok true)
  after_message (t, err (Error.wt WtError.done)) = (t, ok true)
  after_message (t, err (Error.wire Octets.protocol_violation)) = close t
  after_message (t, err _) = (t, panicked)
  after_message (t, panicked) = (t, panicked)
  after_message (t, unfinished) = (t, unfinished)

  unfoldable pub poll_data : ℕ → Action (Session × S) Bool
  unfolding stream_or_new after_read
  poll_data stream_id (s, c) = elim (stream_or_new stream_id s) [
    | none ↦ ((s, c), panicked)
    | some t ↦ after_read stream_id s (InStream.read wt t c)
  ]

  unfoldable pub poll_stream : ℕ → ℕ → ℕ → Action (Session × S) Bool
  unfolding after_message poll_data next_control_message
  poll_stream fuel control_stream_id stream_id t =
      if stream_id == control_stream_id
      then after_message (next_control_message fuel t)
      else poll_data stream_id t

  -- `for stream_id in wt.readable_streams(…)`
  unfoldable pub poll_streams : ℕ → ℕ → List ℕ → Action (Session × S) (Unit {0})
  unfolding poll_stream
  poll_streams fuel control_stream_id [] t = (t, ok tt)
  poll_streams fuel control_stream_id (id ∷ ids) t =
      let rest = poll_streams fuel control_stream_id ids in
      after (poll_stream fuel control_stream_id id t) (λ go t. if go then rest t else (t, ok tt))

  -- The control stream of a server is the first stream of both directions.
  unfoldable pub poll_opened : ℕ → Option ℕ → Action (Session × S) (Unit {0})
  unfolding poll_streams find_bidi
  poll_opened fuel (some id) (s, c) =
      poll_streams fuel id (wt.readable_streams s.webtransport_session_id c) (s, c)
  poll_opened fuel none (s, c) =
      let ids = wt.readable_streams s.webtransport_session_id c in
      elim (find_bidi ids) [
        | none ↦ ((s, c), ok tt)
        | some id ↦ poll_streams fuel id ids (record s { control_stream_id = some id }, c)
      ]

  unfoldable pub poll : ℕ → Action (Session × S) (Unit {0})
  unfolding poll_opened
  poll fuel t = if t.0.closed then (t, ok tt) else poll_opened fuel t.0.control_stream_id t
