-- ===== src/Moq/Session/Receive.antt =====
-- quiche_moq/src/session.rs: objects are read from the streams of a track.
use quiche_moq.Common.{List, Option, if◌then◌else◌, none, some, suc, zero, ℕ}
use quiche_moq.Common.Map.{get, insert, keys_where, modify, remove}
use quiche_moq.Common.Outcome.{Outcome}
use quiche_moq.Octets.{Octets}
use quiche_moq.Wire.Subgroup.{SubgroupHeader}
use quiche_moq.Wire.Object.{ObjectHeader}
use quiche_moq.Webtransport.{Transport}
use quiche_moq.Moq.Error.{Error, done, fin}
use quiche_moq.Moq.Action.{Action, Reply, ok, err, panicked, unfinished, reply}
use quiche_moq.Moq.InStream.{InStream}
use quiche_moq.Moq.InStream
use quiche_moq.Moq.InTrack.{InTrack, current_stream, is_fully_done, fin_stream}
use quiche_moq.Moq.InTrack
use quiche_moq.Moq.Session.{Session}

unfoldable pub readable : Session → List ℕ
unfolding InTrack.readable
readable s = keys_where InTrack.readable s.in_tracks

-- `none` where the code panics.
unfoldable pub stream_of : ℕ → Session → Option (ℕ × InStream)
unfolding current_stream
stream_of track_alias s = elim (get s.in_tracks track_alias) [
  | none ↦ none
  | some track ↦ elim (current_stream track) [
    | none ↦ none
    | some id ↦ elim (get s.in_streams id) [ none ↦ none | some t ↦ some (id, t) ]
  ]
]

unfoldable pub remaining_object_payload : ℕ → Session → Option ℕ
unfolding stream_of
remaining_object_payload track_alias s = elim (stream_of track_alias s) [
  | none ↦ none
  | some (id, t) ↦ some t.remaining_object_payload
]

unfoldable pub subgroup_header : ℕ → Session → Option SubgroupHeader
unfolding stream_of
subgroup_header track_alias s = elim (stream_of track_alias s) [
  | none ↦ none
  | some (id, t) ↦ t.subgroup_header
]

-- `in_streams.remove(&stream_id)` and `track.fin_stream(stream_id)`
unfoldable pub finish_stream : ℕ → ℕ → Session → Session
unfolding fin_stream
finish_stream track_alias stream_id s = record s {
  in_streams = remove stream_id s.in_streams;
  in_tracks = modify track_alias (fin_stream stream_id) s.in_tracks;
}

unfoldable pub put_stream : ℕ → InStream → Session → Session
put_stream stream_id t s = record s { in_streams = insert stream_id t s.in_streams }

-- The stream that the round of the loop is about.
unfoldable pub next_stream : InTrack → Reply ℕ
unfolding current_stream is_fully_done
next_stream track = elim (current_stream track) [
  | some id ↦ ok id
  | none ↦ if is_fully_done track then err fin else err done
]

module _ {S : Type 0} where
  -- The `match stream.read_obj_hdr(...)`, where `again` is the next round.
  unfoldable pub after_header :
      Action (Session × S) ObjectHeader
      → ℕ
      → ℕ
      → Session × S
      → Option (InStream × S × Outcome Error ObjectHeader)
      → (Session × S) × Reply ObjectHeader
  unfolding finish_stream put_stream
  after_header again track_alias id t none = (t, unfinished)
  after_header again track_alias id (s, c') (some (t, c, Outcome.err Error.fin)) =
      again (finish_stream track_alias id s, c)
  after_header again track_alias id (s, c') (some (t, c, r)) = ((put_stream id t s, c), reply r)

  unfoldable pub after_payload :
      ℕ → ℕ → Session → InStream × S × List ℕ × Outcome Error ℕ → (Session × S) × List ℕ × Reply ℕ
  unfolding finish_stream put_stream
  after_payload track_alias id s (t, c, buf, Outcome.err Error.fin) =
      ((finish_stream track_alias id s, c), buf, err fin)
  after_payload track_alias id s (t, c, buf, r) = ((put_stream id t s, c), buf, reply r)

  module _ (wt : Transport S) where
    module _ ⦃o : Octets⦄ where
      unfoldable pub read_stream :
          ℕ → Action (Session × S) ObjectHeader → ℕ → Reply ℕ → Action (Session × S) ObjectHeader
      unfolding after_header
      read_stream fuel again track_alias (ok id) (s, c) = elim (get s.in_streams id) [
        | none ↦ ((s, c), panicked)
        | some t ↦ after_header again track_alias id (s, c) (InStream.read_obj_hdr wt fuel t c)
      ]
      read_stream fuel again track_alias (err e) t = (t, err e)
      read_stream fuel again track_alias panicked t = (t, panicked)
      read_stream fuel again track_alias unfinished t = (t, unfinished)

      -- The loop over the streams of the track, on fuel; `fuel` is that of the loop in `InStream`.
      unfoldable pub read_streams : ℕ → ℕ → ℕ → Action (Session × S) ObjectHeader
      unfolding read_stream next_stream
      read_streams fuel zero track_alias t = (t, unfinished)
      read_streams fuel (suc rounds) track_alias (s, c) =
          let again = read_streams fuel rounds track_alias in
          elim (get s.in_tracks track_alias) [
            | none ↦ ((s, c), err done)
            | some track ↦ read_stream fuel again track_alias (next_stream track) (s, c)
          ]

      unfoldable pub read_obj_hdr : ℕ → ℕ → ℕ → Action (Session × S) ObjectHeader
      unfolding read_streams
      read_obj_hdr fuel rounds track_alias = read_streams fuel rounds track_alias

    unfoldable pub read_obj_pld : List ℕ → ℕ → Session × S → (Session × S) × List ℕ × Reply ℕ
    unfolding after_payload stream_of
    read_obj_pld buf track_alias (s, c) = elim (stream_of track_alias s) [
      | none ↦ ((s, c), buf, panicked)
      | some (id, t) ↦ after_payload track_alias id s (InStream.read_obj_pld wt buf t c)
    ]
