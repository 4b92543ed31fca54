-- ===== src/Moq/Session/Tests/Messages.antt =====
-- Control messages at concrete bytes.
use quiche_moq.Common.{[], arith, refl, ◌∷◌, ◌≡◌, ◌≢◌}
use quiche_moq.Octets
use quiche_moq.Octets.Rfc9000.{rfc9000}
use quiche_moq.Octets.Rfc9000
use quiche_moq.Octets.Cursor
use quiche_moq.Octets.Codec
use quiche_moq.ShortBuf.{ShortBuf, buffer}
use quiche_moq.ShortBuf.Queue.{IsValid}
use quiche_moq.Wire.Version.{between, draft_07}
use quiche_moq.Wire.Parameters
use quiche_moq.Wire.Control.Enum
use quiche_moq.Wire.Control.Enum.RoundTrip.{received}
use quiche_moq.Wire.Control.Frame
use quiche_moq.Wire.Control.RequestsBlocked
use quiche_moq.Moq.Error.{Error}
use quiche_moq.Moq.Action.{err, ok}
use quiche_moq.Moq.OutStream.{in_buffer}
use quiche_moq.Moq.Session.{version_or_setup}
use quiche_moq.Moq.Session.Messages.{control_message_delivered, next_control_message_never_wire}
use quiche_moq.Moq.Session.Poll.{next_control_message}
use quiche_moq.Moq.Session.Tests.{relay, whole}

blocked_bytes :
    in_buffer (Enum.to_bytes draft_07 (Enum.requests_blocked (record { maximum_request_id = 5 })))
    ≡ Octets.ok (0x1a ∷ 0x40 ∷ 0x01 ∷ 0x05 ∷ [])
unfolding in_buffer Enum.to_bytes Frame.to_bytes Octets.◌>>=◌ RequestsBlocked.message Octets.◌>>◌
    Octets.emit Rfc9000.varint Cursor.off Rfc9000.skip RequestsBlocked.to_body_bytes between
    Codec.for_each Parameters.to_bytes Frame.set_control_message_length
    Cursor.put_varint_with_len_at Rfc9000.split_at Rfc9000.varint_with_len
blocked_bytes = refl

abbrev received_bytes : ShortBuf
received_bytes = record { buf = 0x1a ∷ 0x40 ∷ 0x01 ∷ 0x05 ∷ 0x06 ∷ 0 ∷ 0 ∷ []; offset = 0; end = 5 }

in_buf : buffer received_bytes ≡ 0x1a ∷ 0x40 ∷ 0x01 ∷ 0x05 ∷ 0x06 ∷ []
unfolding buffer
in_buf = refl

next_control_message_never_wire_example :
    (next_control_message whole 3 (relay, [])).1 ≢ err (Error.wire Octets.protocol_violation)
next_control_message_never_wire_example =
    next_control_message_never_wire whole 3 (relay, []) Octets.protocol_violation

control_message_delivered_example :
    (buf : ShortBuf) × (next_control_message whole 1
        (record relay { ctrl_buf = received_bytes }, [])
      ≡ (
        (record relay { ctrl_buf = buf }, []),
        ok (received draft_07 (Enum.requests_blocked (record { maximum_request_id = 5 }))),
      ))
    × (buffer buf ≡ 0x06 ∷ [])
    × IsValid buf
unfolding version_or_setup
control_message_delivered_example =
    control_message_delivered whole draft_07
      (Enum.requests_blocked (record { maximum_request_id = 5 })) (0x1a ∷ 0x40 ∷ 0x01 ∷ 0x05 ∷ [])
      (0x06 ∷ []) 0 0 (record relay { ctrl_buf = received_bytes }) [] (omega arith, omega arith)
      (omega arith) blocked_bytes refl refl (record { ordered = omega arith; inside = omega arith })
      in_buf
