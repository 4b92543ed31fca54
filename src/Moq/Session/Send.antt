-- ===== src/Moq/Session/Send.antt =====
-- quiche_moq/src/session.rs: objects are sent on the streams of a track.
use quiche_moq.Common.{
  Bool, List, Option, [], false, if◌then◌else◌, leb, length, ltb, none, not, some, true, ℕ, ◌==◌,
  ◌||◌,
}
use quiche_moq.Common.Map.{get, insert, keys_where, modify, remove}
use quiche_moq.Common.Outcome.{Outcome}
use quiche_moq.Octets.{Octets}
use quiche_moq.Wire.Version.{Version}
use quiche_moq.Wire.KeyValuePairs.{KeyValuePairs}
use quiche_moq.Webtransport.{Transport, Error as WtError}
use quiche_moq.Moq.Error.{insufficient_capacity}
use quiche_moq.Moq.Action.{
  Action, Reply, ok, err, panicked, unwrap, unwrapped, reply, pure, assert, ◌>>=◌, ◌>>◌,
}
use quiche_moq.Moq.OutStream.{OutStream, Sent}
use quiche_moq.Moq.OutStream
use quiche_moq.Moq.OutTrack.{OutTrack}
use quiche_moq.Moq.OutTrack
use quiche_moq.Moq.Session.{Session, self, update}
use quiche_moq.Moq.Session.Handle.{unwrap_or}

abbrev pub reset_stream_code_delivery_timeout : ℕ
reset_stream_code_delivery_timeout = 0x2

unfoldable pub set_current : ℕ → Option ℕ → Session → Session
set_current track_alias stream_id s = record s {
  out_tracks = modify track_alias (λ t. record t { current_stream_id = stream_id }) s.out_tracks;
}

unfoldable pub add_stream : ℕ → ℕ → ℕ → ℕ → Version → Session → Session
add_stream stream_id track_alias group_id subgroup_id version s = record s {
  out_streams =
      insert stream_id (OutStream.new stream_id track_alias group_id subgroup_id version)
        s.out_streams;
}

unfoldable pub drop_stream : ℕ → Session → Session
drop_stream stream_id s = record s { out_streams = remove stream_id s.out_streams }

-- Whether the ids that are asked for are on another stream than the current one, `o`; `none` where
-- the assertion fails.
unfoldable pub needs_switch : Option ℕ → Option ℕ → OutStream → Option Bool
unfolding unwrap_or
needs_switch group_id subgroup_id o =
    let new_group = unwrap_or o.group_id group_id in
    let new_subgroup = unwrap_or o.subgroup_id subgroup_id in
    if leb o.group_id new_group
    then some (ltb o.group_id new_group || not (new_subgroup == o.subgroup_id))
    else none

unfoldable pub need_new_stream : Option ℕ → Option ℕ → Option ℕ → Session → Option Bool
unfolding needs_switch
need_new_stream none group_id subgroup_id s = some true
need_new_stream (some sid) group_id subgroup_id s = elim (get s.out_streams sid) [
  | none ↦ none
  | some o ↦ needs_switch group_id subgroup_id o
]

-- `Err(InsufficientCapacity)` is passed on, other errors are `unimplemented!`.
unfoldable pub or_capacity : {A : Type 0} → Outcome WtError A → Reply A
or_capacity (Outcome.ok a) = ok a
or_capacity (Outcome.err WtError.insufficient_capacity) = err insufficient_capacity
or_capacity (Outcome.err _) = panicked
or_capacity Outcome.panicked = panicked

module _ {S : Type 0} where
  -- A method of the stream `out_streams.get_mut(&stream_id).unwrap()`.
  unfoldable pub with_stream :
      {A : Type 0} → ℕ → (OutStream → S → Sent S A) → Action (Session × S) A
  with_stream stream_id f (s, c) = elim (get s.out_streams stream_id) [
    | none ↦ ((s, c), panicked)
    | some o ↦
        let r = f o c in
        ((record s { out_streams = insert stream_id r.0 s.out_streams }, r.1), reply r.2)
  ]

  module _ (wt : Transport S) where
    unfoldable pub open_stream : (Outcome WtError ℕ → Reply ℕ) → Action (Session × S) ℕ
    open_stream answer (s, c) =
        let r = wt.open_stream s.webtransport_session_id false c in ((s, r.0), answer r.1)

    -- The stream of the track, or a new one of group and subgroup 0.
    unfoldable pub stream_of : ℕ → Option ℕ → Action (Session × S) ℕ
    unfolding open_stream set_current add_stream
    stream_of track_alias (some stream_id) = pure stream_id
    stream_of track_alias none = do
      stream_id ← open_stream unwrapped
      update (set_current track_alias (some stream_id))
      s ← self
      version ← unwrap s.selected_version
      update (add_stream stream_id track_alias 0 0 version)
      pure stream_id

    unfoldable pub fin_stream : ℕ → Option ℕ → Action (Session × S) (Unit {0})
    unfolding with_stream set_current
    fin_stream track_alias none = pure tt
    fin_stream track_alias (some old_sid) = do
      with_stream old_sid (OutStream.fin wt)
      update (set_current track_alias none)

    -- `if need_new_stream`
    unfoldable pub switch_stream :
        Bool → ℕ → Option ℕ → Option ℕ → Option ℕ → Version → Action (Session × S) (Unit {0})
    unfolding fin_stream open_stream or_capacity add_stream
    switch_stream false track_alias current group_id subgroup_id version = pure tt
    switch_stream true track_alias current group_id subgroup_id version = do
      fin_stream track_alias current
      stream_id ← open_stream or_capacity
      update (set_current track_alias (some stream_id))
      update (
          add_stream stream_id track_alias (unwrap_or 0 group_id) (unwrap_or 0 subgroup_id) version)

    unfoldable pub current_of : ℕ → Action (Session × S) ℕ
    current_of track_alias = do
      s ← self
      track ← unwrap (get s.out_tracks track_alias)
      unwrap track.current_stream_id

    module _ ⦃c : Octets⦄ where
      unfoldable pub send_obj : List ℕ → ℕ → Action (Session × S) (Unit {0})
      unfolding stream_of with_stream
      send_obj buf track_alias = do
        s ← self
        track ← unwrap (get s.out_tracks track_alias)
        stream_id ← stream_of track_alias track.current_stream_id
        with_stream stream_id (OutStream.send_obj wt buf)

      unfoldable pub send_obj_hdr_with :
          Option ℕ → Option ℕ → Option ℕ → ℕ → KeyValuePairs → ℕ → Action (Session × S) (Unit {0})
      unfolding need_new_stream switch_stream current_of with_stream
      send_obj_hdr_with group_id subgroup_id object_id size extension_headers track_alias = do
        s ← self
        version ← unwrap s.selected_version
        track ← unwrap (get s.out_tracks track_alias)
        need ← unwrap (need_new_stream track.current_stream_id group_id subgroup_id s)
        switch_stream need track_alias track.current_stream_id group_id subgroup_id version
        stream_id ← current_of track_alias
        with_stream stream_id (OutStream.send_obj_hdr wt object_id size extension_headers)

      unfoldable pub send_obj_hdr : ℕ → ℕ → Action (Session × S) (Unit {0})
      unfolding send_obj_hdr_with
      send_obj_hdr size track_alias = send_obj_hdr_with none none none size [] track_alias

    unfoldable pub send_obj_pld : List ℕ → ℕ → Action (Session × S) ℕ
    unfolding current_of with_stream
    send_obj_pld buf track_alias = do
      stream_id ← current_of track_alias
      with_stream stream_id (OutStream.send_obj_pld wt buf)

    unfoldable pub send_obj_with :
        ⦃c : Octets⦄
        → List ℕ
        → Option ℕ
        → Option ℕ
        → KeyValuePairs
        → ℕ
        → Action (Session × S) (Unit {0})
    unfolding send_obj_hdr_with send_obj_pld
    send_obj_with buf group_id object_id extension_headers track_alias = do
      send_obj_hdr_with group_id none object_id (length buf) extension_headers track_alias
      n ← send_obj_pld buf track_alias
      assert (n == length buf)

    -- `quic.stream_shutdown(...).ok()`
    unfoldable pub reset_current_track_stream : ℕ → Action (Session × S) (Unit {0})
    unfolding set_current drop_stream
    reset_current_track_stream track_alias (s, c) = elim (get s.out_tracks track_alias) [
      | none ↦ ((s, c), panicked)
      | some track ↦ elim track.current_stream_id [
        | none ↦ ((s, c), ok tt)
        | some stream_id ↦ (
          (
            set_current track_alias none (drop_stream stream_id s),
            (wt.stream_shutdown stream_id reset_stream_code_delivery_timeout c).0,
          ),
          ok tt,
        )
      ]
    ]

    unfoldable pub shut_down : ℕ → Action (Session × S) (Unit {0})
    shut_down stream_id (s, c) =
        let r = wt.stream_shutdown stream_id reset_stream_code_delivery_timeout c in
        ((s, r.0), unwrapped r.1)

    unfoldable pub timeout_stream : ℕ → Action (Session × S) (Unit {0})
    unfolding current_of shut_down set_current drop_stream
    timeout_stream track_alias = do
      stream_id ← current_of track_alias
      shut_down stream_id
      update (set_current track_alias none)
      update (drop_stream stream_id)

-- A track is always writable.
unfoldable pub writable : Session → List ℕ
unfolding OutTrack.writable
writable s = keys_where OutTrack.writable s.out_tracks
