-- ===== src/Moq/Session/Tests/Reading.antt =====
-- A session with one track, of one stream, that is read.
use quiche_moq.Common.{List, [], arith, refl, some, ℕ, ◌+◌, ◌∷◌, ◌≢◌}
use quiche_moq.Common.Map.{Each, get, insert, insert-Each}
use quiche_moq.Octets.Rfc9000.{rfc9000}
use quiche_moq.ShortBuf.{ShortBuf, buffer}
use quiche_moq.ShortBuf
use quiche_moq.Wire.Version.{draft_07}
use quiche_moq.Wire.Subgroup.{SubgroupHeader}
use quiche_moq.Webtransport.Connection.{Connection}
use quiche_moq.Webtransport.Connection.Receives.{AreValid}
use quiche_moq.Webtransport.Tests.{connected}
use quiche_moq.Moq.Action.{unfinished}
use quiche_moq.Moq.InStream.{InStream, buf_len}
use quiche_moq.Moq.InStream
use quiche_moq.Moq.InTrack.{InTrack, current_stream}
use quiche_moq.Moq.InTrack
use quiche_moq.Moq.Tests.{connected-AreValid, wt, wt-IsReceiver}
use quiche_moq.Moq.Session.{
  Config, Session, accepted, send_all, send_control_message, version_or_setup,
}
use quiche_moq.Moq.Session
use quiche_moq.Moq.Session.Reading.{Ready, read_tracks_total, streams_of}
use quiche_moq.Moq.Session.Receive
use quiche_moq.Moq.Session.Tests.{relay}

abbrev header : SubgroupHeader
header = record {
  ty = 0x4;
  track_alias = 7;
  group_id = 0;
  subgroup_id = some 0;
  publisher_priority = 0;
}

-- A stream with `n` bytes of payload left.
abbrev stream : ℕ → InStream
stream n = record (InStream.new 2 4 draft_07) {
  subgroup_header = some header;
  remaining_object_payload = n;
}

abbrev one_track : InTrack
one_track = record (InTrack.new 7) { readable_streams = 2 ∷ [] }

abbrev reading : ℕ → Session
reading n = record relay { in_streams = insert 2 (stream n) []; in_tracks = insert 7 one_track [] }

nothing : {V : Type 0} (P : ℕ → V → Type 0) → Each P []
unfolding get
nothing P k v e = absurd (cc e)

abbrev start : Connection × List ℕ
start = (connected, [])

reading-Ready : Ready (reading 0)
unfolding InStream.new ShortBuf.new
reading-Ready =
    insert-Each _ 2 (stream 0) [] (nothing _)
      (header, refl, refl, record { ordered = omega arith; inside = omega arith }, refl)

read_tracks_total_example :
    (Receive.read_obj_hdr wt (buf_len + 1) (streams_of 7 (reading 0) + 1) 7 (reading 0, start)).1
    ≢ unfinished
read_tracks_total_example =
    read_tracks_total wt (λ ((c, s) : Connection × List ℕ). AreValid c) (λ s. 0) wt-IsReceiver
      (buf_len + 1) 7 (reading 0) start connected-AreValid (omega arith) reading-Ready
