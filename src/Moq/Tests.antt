-- ===== src/Moq/Tests.antt =====
-- The properties of tracks and streams at concrete states.
use quiche_moq.Common.{
  List, [], arith, contains, if◌then◌else◌, none, not, refl, some, ℕ, ◌%◌, ◌&&◌, ◌*◌, ◌+◌, ◌==◌,
  ◌^◌, ◌||◌, ◌∷◌, ◌≡◌,
}
use quiche_moq.Common.Outcome.{Outcome, ok, err}
use quiche_moq.Wire.Version.{draft_16}
use quiche_moq.Moq.InTrack.{InTrack, fin_stream, mark_stream_readable}
use quiche_moq.Moq.InTrack.Order.{IsOrdered, fin_stream-IsOrdered, mark_stream_readable-IsOrdered}
use quiche_moq.Octets.{emit, ◌>>=◌, ◌>>◌}
use quiche_moq.Octets.Rfc9000.{rfc9000, varint, varint_len}
use quiche_moq.Common.Sorting.{sort_by_key}
use quiche_moq.Wire.Object
use quiche_moq.Wire.KeyValuePairs
use quiche_moq.Moq.OutStream.{OutStream, object_payload, object_header, send_obj_pld, send_obj_hdr}
use quiche_moq.Moq.OutStream.Headers.{Announced, send_obj_hdr-Announced}
use quiche_moq.ShortBuf.{Callback}
use quiche_moq.ShortBuf
use quiche_moq.Moq.InStream.{InStream, read_obj_pld}
use quiche_moq.Moq.InStream
use quiche_moq.Moq.InStream.Payload.{Received, read_obj_pld-Received}
use quiche_moq.Webtransport.{IsReceiver, Transport, Error as WtError}
use quiche_moq.Common.Map.{Each, get, insert-Each}
use quiche_moq.ShortBuf.Queue.{IsFillAt, IsValid, Answers-IsFillAt}
use quiche_moq.Webtransport.Stream.{Stream, with_session}
use quiche_moq.Webtransport.Connection.{Connection}
use quiche_moq.Webtransport.Connection.Poll.{transport}
use quiche_moq.Webtransport.Connection.Receives.{AreValid, transport-IsReceiver}
use quiche_moq.Webtransport.Connection.Sends.{transport-IsSender}
use quiche_moq.Webtransport.Tests.{connected, quic, quic-IsDrained, quic-IsQuic}
use quiche_moq.Moq.OutStream.Steps.{Paid, remaining, send_obj_pld-IsState}

abbrev track : InTrack
track = record {
  track_alias = 1;
  readable_streams = 3 ∷ 11 ∷ [];
  finned_streams = 0;
  expected_streams = none;
}

track-IsOrdered : IsOrdered track
track-IsOrdered = (omega arith, (omega arith, tt))

mark_stream_readable-IsOrdered_example :
    IsOrdered (mark_stream_readable 7 track)
    × ((other : ℕ)
        → contains (mark_stream_readable 7 track).readable_streams other
          ≡ (7 == other || contains track.readable_streams other))
mark_stream_readable-IsOrdered_example = mark_stream_readable-IsOrdered 7 track track-IsOrdered

fin_stream-IsOrdered_example :
    IsOrdered (fin_stream 3 track)
    × ((other : ℕ)
        → contains (fin_stream 3 track).readable_streams other
          ≡ (contains track.readable_streams other && not (3 == other)))
    × ((fin_stream 3 track).finned_streams ≡ (
        if contains track.readable_streams 3
        then (track.finned_streams + 1) % 2 ^ 64
        else track.finned_streams))
fin_stream-IsOrdered_example = fin_stream-IsOrdered 3 track track-IsOrdered

-- A transport that takes one byte at a time, and counts the calls.
abbrev taken : List ℕ → Outcome WtError ℕ
taken [] = err WtError.done
taken (x ∷ xs) = ok 1

abbrev slow : Transport ℕ
slow = record {
  readable_streams = λ id s. [];
  open_stream = λ id bidi s. (s + 1, ok (4 * s + 2));
  recv_stream = λ id session_id s b. (s, b, err WtError.done);
  stream_send = λ id b fin s. (s + 1, taken b);
  stream_send_if_capacity = λ id b fin s. (s + 1, ok tt);
  close_session = λ id code s. (s + 1, ok tt);
  stream_shutdown = λ id code s. (s + 1, ok tt);
}

abbrev paying : OutStream
paying = record {
  stream_id = 2;
  state = object_payload 0xd 2;
  track_alias = 1;
  group_id = 0;
  subgroup_id = 0;
  version = draft_16;
  next_object_id = 1;
}

one_byte_left : remaining (send_obj_pld slow (5 ∷ 6 ∷ []) paying 0).0.state ≡ 1
unfolding send_obj_pld remaining
one_byte_left = refl

-- A WebTransport connection with one stream.
abbrev pub wt : Transport (Connection × List ℕ)
wt = transport (quic 10) []

send_obj_pld-IsState_example :
    Paid wt paying.state (5 ∷ 6 ∷ []) (send_obj_pld wt (5 ∷ 6 ∷ []) paying (connected, []))
send_obj_pld-IsState_example =
    send_obj_pld-IsState wt (5 ∷ 6 ∷ []) paying (connected, []) (omega arith, omega arith)
      (transport-IsSender (quic 10) (λ id s. s) (quic-IsQuic 10) [])

abbrev idle : OutStream
idle = record paying { state = object_header 0xd }

header_sent : (send_obj_hdr slow (some 5) 3 [] idle 0).0.state ≡ object_payload 0xd 3
unfolding send_obj_hdr Object.to_bytes Object.new Object.put_extension_headers varint
    KeyValuePairs.byte_length KeyValuePairs.length_from KeyValuePairs.ordered KeyValuePairs.to_bytes
    sort_by_key varint_len ◌>>=◌ ◌>>◌ emit
header_sent = refl

send_obj_hdr-Announced_example :
    Announced idle.next_object_id
      (remaining idle.state)
      3
      (some 5)
      (send_obj_hdr slow (some 5) 3 [] idle 0)
send_obj_hdr-Announced_example = send_obj_hdr-Announced slow (some 5) 3 [] idle 0

-- A stream with five bytes of payload left and nothing buffered.
abbrev receiving : InStream
receiving = record (InStream.new 2 4 draft_16) { remaining_object_payload = 5 }

nothing : Each (λ id (t : Stream). IsValid t.buf) []
unfolding get
nothing k v e = absurd (cc e)

pub connected-AreValid : AreValid connected
unfolding with_session ShortBuf.new
connected-AreValid =
    insert-Each (λ id (t : Stream). IsValid t.buf) 2 (with_session 2 4) [] nothing
      (record { ordered = omega arith; inside = omega arith })

pub wt-IsReceiver :
    IsReceiver wt
      (λ ((c, s) : Connection × List ℕ). AreValid c)
      (λ ((c, s) : Connection × List ℕ). 0)
wt-IsReceiver = transport-IsReceiver (quic 10) (λ s. 0) (quic-IsDrained 10) []

wt_receives : IsFillAt (wt.recv_stream 2 4) (connected, [])
wt_receives =
    Answers-IsFillAt (wt.recv_stream 2 4) (λ s. 0) (connected, [])
      (λ b. wt-IsReceiver.answers 2 4 (connected, []) b connected-AreValid)

read_obj_pld-Received_example :
    Received receiving 2 (read_obj_pld wt (0 ∷ 0 ∷ []) receiving (connected, []))
unfolding InStream.new ShortBuf.new
read_obj_pld-Received_example =
    read_obj_pld-Received wt (0 ∷ 0 ∷ []) receiving (connected, [])
      (record { ordered = omega arith; inside = omega arith }) (omega arith) wt_receives
