-- ===== src/Webtransport/Tests.antt =====
-- The properties of streams and connections at concrete states, over a QUIC connection whose state is
-- what one stream has sent.
use quiche_moq.Common.{
  List, [], ap, arith, false, length, none, refl, some, sym, take, take-all, ℕ, ◌++◌, ◌∙◌, ◌∷◌, ◌≡◌,
  ◌≤◌,
}
use quiche_moq.Common.Map.{get, insert}
use quiche_moq.Common.Outcome.{Outcome, ok, err, panicked}
use quiche_moq.Octets
use quiche_moq.Octets.Rfc9000.{rfc9000, varint, varint_len}
use quiche_moq.ShortBuf.{ShortBuf, buffer, fill, compact, extend}
use quiche_moq.ShortBuf
use quiche_moq.Wire.Version.{between, draft_16}
use quiche_moq.Octets.Codec.{put_unwrapped}
use quiche_moq.Moq.OutStream.{OutStream, in_buffer, send_obj_hdr}
use quiche_moq.Moq.OutStream
use quiche_moq.Webtransport.Quic.{IsDrained, IsQuic, Quic, QuicError}
use quiche_moq.Webtransport.Stream.{Stream, new_remote, read_session_id, send, with_session}
use quiche_moq.Webtransport.Stream.SessionId.{read_session_id_remote}
use quiche_moq.Webtransport.Stream.Wire.{Sent, send_Sent}
use quiche_moq.Webtransport.Connection.{Connection, client, pending_request}
use quiche_moq.Webtransport.Connection.Headers.{Url, recv_hdrs}
use quiche_moq.Webtransport.Connection.Poll.{transport}
use quiche_moq.Webtransport.Connection.Sessions.{connect_session}
use quiche_moq.Webtransport.Connection
use quiche_moq.Webtransport.Connection.Client.{second_session_fails, send_obj_hdr_without_room}
use quiche_moq.Webtransport.{Error}
use quiche_moq.Webtransport.Connection.Streams.{stream_send_if_capacity}
use quiche_moq.Wire.Subgroup.{SubgroupHeader}
use quiche_moq.Wire.Subgroup

-- Three bytes arrive: the id 4, and the payload 7 8.
abbrev pub recv : List ℕ → List ℕ → List ℕ × List ℕ × Outcome QuicError ℕ
recv s (a ∷ b ∷ c ∷ bs) = (s, 4 ∷ 7 ∷ 8 ∷ bs, ok 3)
recv s b = (s, b, err QuicError.done)

abbrev pub quic : ℕ → Quic (List ℕ)
quic capacity = record {
  stream_recv = λ id. recv;
  stream_finished = λ id s. false;
  stream_capacity = λ id s. ok capacity;
  stream_send = λ id b fin s. (s ++ b, ok (length b));
  stream_shutdown = λ id code s. (s, ok tt);
  open_webtransport_stream = λ bidi s. (s, ok 2);
  readable_webtransport_streams = λ s. (s, 2 ∷ []);
  send_request = λ headers fin s. (s, ok 4);
  send_response = λ id headers fin s. (s, ok tt);
  send_body = λ id b fin s. (s, ok (length b));
}

pub quic-IsQuic : (capacity : ℕ) → IsQuic (quic capacity) (λ id s. s)
quic-IsQuic capacity = record {
  receives = λ id. record { keeps = keeps; fits = fits };
  takes = λ id b fin s n e.
      let same : length b ≡ n = cc e in
      (omega (arith, same), ap (λ x. s ++ x) (sym (take-all b) ∙ ap (λ n. take n b) same));
  refuses = λ id b fin s e f. absurd (cc f);
}
  where
    keeps : (s b : List ℕ) → length (recv s b).1 ≡ length b
    keeps s [] = refl
    keeps s (a ∷ []) = refl
    keeps s (a ∷ b ∷ []) = refl
    keeps s (a ∷ b ∷ c ∷ bs) = refl

    fits : (s b : List ℕ) (n : ℕ) → (recv s b).2 ≡ ok n → n ≤ length b
    fits s [] n e = absurd (cc e)
    fits s (a ∷ []) n e = absurd (cc e)
    fits s (a ∷ b ∷ []) n e = absurd (cc e)
    fits s (a ∷ b ∷ c ∷ bs) n e = let same : 3 ≡ n = cc e in omega (arith, same)

-- No end of a stream is outstanding.
pub quic-IsDrained : (capacity : ℕ) → IsDrained (quic capacity) (λ s. 0)
quic-IsDrained capacity id s [] = (refl, omega arith, λ n e. absurd (cc e))
quic-IsDrained capacity id s (a ∷ []) = (refl, omega arith, λ n e. absurd (cc e))
quic-IsDrained capacity id s (a ∷ b ∷ []) = (refl, omega arith, λ n e. absurd (cc e))
quic-IsDrained capacity id s (a ∷ b ∷ c ∷ bs) = (
  refl,
  omega arith,
  λ n e. let same : 3 ≡ n = cc e in (omega (arith, same), λ k. omega (arith, same)),
)

send_Sent_example :
    Sent (λ id s. s) 4 [] (9 ∷ []) (send (quic 10) (9 ∷ []) false (with_session 2 4) [])
unfolding with_session
send_Sent_example =
    send_Sent (λ id s. s) (quic 10) (quic-IsQuic 10) 4 [] (9 ∷ []) false (with_session 2 4) []
      (refl, omega arith, (refl, refl))

-- The id is in front of the payload.
sent_bytes : (send (quic 10) (9 ∷ []) false (with_session 2 4) []).1 ≡ 4 ∷ 9 ∷ []
unfolding send with_session Octets.emit varint
sent_bytes = refl

abbrev arrived : ShortBuf
arrived = record { buf = 4 ∷ 7 ∷ 8 ∷ 0 ∷ 0 ∷ 0 ∷ 0 ∷ 0 ∷ []; offset = 0; end = 3 }

arrived_filled : fill recv (new_remote 3).buf [] ≡ (arrived, [], ok tt)
unfolding fill new_remote ShortBuf.new compact extend
arrived_filled = refl

arrived_bytes : buffer arrived ≡ varint 4 ++ (7 ∷ 8 ∷ [])
unfolding buffer varint
arrived_bytes = refl

read_session_id_remote_example :
    (t : Stream) × (read_session_id (quic 10) 2 (new_remote 3) [] ≡ some (t, [], ok 4))
    × (t.session_id ≡ some 4)
    × (buffer t.buf ≡ 7 ∷ 8 ∷ [])
read_session_id_remote_example =
    read_session_id_remote (quic 10) 0 4 3 (7 ∷ 8 ∷ []) [] [] arrived (omega arith) arrived_filled
      (record { ordered = omega arith; inside = omega arith }) arrived_bytes

abbrev pub connected : Connection
connected = record (Connection.new false) { streams = insert 2 (with_session 2 4) [] }

four_is_one_byte : varint_len 4 ≡ 1
unfolding varint_len
four_is_one_byte = refl

abbrev fresh : OutStream
fresh = OutStream.new 2 7 0 0 draft_16

abbrev fresh_header : SubgroupHeader
fresh_header = record {
  ty = 0xd;
  track_alias = 7;
  group_id = 0;
  subgroup_id = some 0;
  publisher_priority = 0;
}

fresh_bytes :
    in_buffer (Subgroup.to_bytes draft_16 fresh_header)
    ≡ Octets.ok (0x0d ∷ 0x07 ∷ 0x00 ∷ 0x00 ∷ 0x00 ∷ [])
unfolding in_buffer Subgroup.to_bytes Octets.◌>>◌ between Octets.assert Octets.emit varint
    Subgroup.subgroup_id_present put_unwrapped
fresh_bytes = refl

fresh_made : Subgroup.new 7 0 0 draft_16 ≡ Octets.ok fresh_header
unfolding Subgroup.new between
fresh_made = refl

send_obj_hdr_without_room_example :
    ((stream_send_if_capacity
        (quic 0)
        2
        (0x0d ∷ 0x07 ∷ 0x00 ∷ 0x00 ∷ 0x00 ∷ [])
        false
        (connected, [])).1
      ≡ err Error.done)
    × ((send_obj_hdr (transport (quic 0) []) none 3 [] fresh (connected, [])).2 ≡ panicked)
unfolding get insert with_session OutStream.new
send_obj_hdr_without_room_example =
    send_obj_hdr_without_room (quic 0) 4 0 3 none [] fresh_header _ [] (with_session 2 4) connected
      [] fresh refl refl (omega arith) refl refl (omega (arith, four_is_one_byte)) refl fresh_made
      fresh_bytes (omega arith)

abbrev url : Url
url = record { scheme = []; authority = []; path = [] }

abbrev requesting : Connection
requesting = record (Connection.new false) { perspective = client (insert 4 pending_request []) }

requested : connect_session (quic 10) url (Connection.new false, []) ≡ ((requesting, []), ok 4)
unfolding connect_session Connection.new
requested = refl

second_session_fails_example : recv_hdrs 4 [] requesting ≡ none
second_session_fails_example =
    second_session_fails (quic 10) url (Connection.new false) requesting [] [] 4 [] requested
      (omega arith)
