-- ===== src/Moq/Session/Messages.antt =====
-- Control messages between two sessions: what is written is what is read, and which errors reading
-- ends in.
use quiche_moq.Common.{
  Bool, List, Option, [], ap, arith, drop, false, if◌then◌else◌, leb, leb→le, length, length-append,
  length-zeros, none, refl, some, suc, sym, true, zero, zeros, ℕ, ◌++◌, ◌+◌, ◌-◌, ◌<◌, ◌∙◌, ◌≡◌,
  ◌≢◌,
}
use quiche_moq.Common.Outcome.{Outcome}
use quiche_moq.Octets.{M, Octets, Reader, Result, Writer, bind, emit}
use quiche_moq.Octets
use quiche_moq.ShortBuf.{ShortBuf, buffer, consume, fill}
use quiche_moq.ShortBuf.Queue.{IsValid}
use quiche_moq.ShortBuf.Queue.Read.{consume_queue}
use quiche_moq.Wire.Version.{IsDraft, Version}
use quiche_moq.Wire.Control.Enum.{ControlMessageEnum}
use quiche_moq.Wire.Control.Enum
use quiche_moq.Wire.Control.Enum.RoundTrip.{IsEncodable, control_message_codes, received}
use quiche_moq.Wire.Control.Frame.InOrder.{message_limit}
use quiche_moq.Wire.Control.Frame.RoundTrip.{CodesBelow}
use quiche_moq.Webtransport.{Transport, Error as WtError}
use quiche_moq.Moq.Error.{Error}
use quiche_moq.Moq.Action.{Action, Reply, after, err, ok, panicked, unwrap}
use quiche_moq.Moq.OutStream.{in_buffer}
use quiche_moq.Moq.Session.{Session, version_or_setup}
use quiche_moq.Moq.Session.Poll.{
  after_decode, after_fill, next_control_message, read_messages, take_message,
}

-- What is written into the array of 100 bytes is all that the encoder writes.
in_buffer-bytes :
    {A : Type 0} {front : List ℕ} {p : M Writer (Unit {0})} {g : M Reader A} {a : A} (b : List ℕ)
    (c : CodesBelow message_limit front p g a)
    → in_buffer p ≡ Octets.ok b
    → (b ≡ c.bytes) × (length c.bytes < message_limit)
unfolding in_buffer emit
in_buffer-bytes {A} {front} {p} {g} {a} b c e =
    cases (leb (length c.bytes) (length (zeros 100))) refl
      (ap (λ r. bind r (λ (u, w). Octets.ok w.written)) (sym written) ∙ e)
  where
    array : Writer
    array = record { written = []; ahead = zeros 100 }

    written : p array ≡ emit c.bytes array
    written = c.puts array (omega (arith, length-zeros 100))

    cases :
        (t : Bool)
        → leb (length c.bytes) (length (zeros 100)) ≡ t
        → bind
            (if t
              then Octets.ok (
                tt,
                record { written = [] ++ c.bytes; ahead = drop (length c.bytes) (zeros 100) },
              )
              else Octets.err Octets.buffer_too_short)
            (λ ((u, w) : Unit {0} × Writer). Octets.ok w.written)
          ≡ Octets.ok b
        → (b ≡ c.bytes) × (length c.bytes < message_limit)
    cases true z f =
        (let same : c.bytes ≡ b = cc f in sym same, omega (arith, leb→le _ _ z, length-zeros 100))
    cases false z f = absurd (cc f)

-- The bytes of a message are read as the message, whatever follows them.
pub decoded :
    ⦃o : Octets⦄ (v : Version) (cm : ControlMessageEnum) (b rest : List ℕ)
    → IsDraft v
    → IsEncodable v cm
    → in_buffer (Enum.to_bytes v cm) ≡ Octets.ok b
    → Enum.from_bytes v (b ++ rest) ≡ Octets.ok (received v cm, rest)
decoded v cm b rest d e w =
    let codes = control_message_codes v cm d e in
    let (same, small) = in_buffer-bytes b codes w in
    ap (λ b. Enum.from_bytes v (b ++ rest)) same ∙ codes.gets small rest

module _ {S : Type 0} (wt : Transport S) ⦃o : Octets⦄ where
  -- In every draft from 07 to 16, the bytes that an encodable control message takes in the array of
  -- 100 bytes of a sender, where they fit, standing at the front of the control buffer of a session
  -- of the same version that has a control stream and a valid buffer, make next_control_message
  -- return the message as received says, with one round of its loop or more; the state changes in
  -- the buffer only, which keeps exactly the bytes behind the message and stays valid.
  pub control_message_delivered :
      (v : Version) (cm : ControlMessageEnum) (b rest : List ℕ) (fuel id : ℕ) (s : Session) (c : S)
      → IsDraft v
      → IsEncodable v cm
      → in_buffer (Enum.to_bytes v cm) ≡ Octets.ok b
      → version_or_setup s ≡ v
      → s.control_stream_id ≡ some id
      → IsValid s.ctrl_buf
      → buffer s.ctrl_buf ≡ b ++ rest
      → (buf : ShortBuf) × (next_control_message wt (suc fuel) (s, c)
          ≡ ((record s { ctrl_buf = buf }, c), ok (received v cm)))
        × (buffer buf ≡ rest)
        × IsValid buf
  unfolding next_control_message read_messages after_decode take_message
  control_message_delivered v cm b rest fuel id s c d e w x y valid z =
      let (took, left, valid') = consume_queue s.ctrl_buf b rest valid z in
      let total : length (buffer s.ctrl_buf) ≡ length b + length rest =
        ap length z ∙ length-append b rest in
      let size : length (buffer s.ctrl_buf) - length rest ≡ length b = omega (arith, total) in
      let seen : Enum.from_bytes (version_or_setup s) (buffer s.ctrl_buf)
          ≡ Octets.ok (received v cm, rest) =
        ap (λ v. Enum.from_bytes v (buffer s.ctrl_buf)) x
        ∙ ap (Enum.from_bytes v) z
        ∙ decoded v cm b rest d e w in
      (
        record (s.ctrl_buf) { offset = s.ctrl_buf.offset + length b },
        ap (λ i. after (unwrap i (s, c)) (read_messages wt (suc fuel))) y
            ∙ ap (λ r. after_decode wt (read_messages wt fuel id) id r (s, c)) seen
            ∙ ap (λ n. taken (consume n s.ctrl_buf)) size
            ∙ ap taken took,
        left,
        valid',
      )
    where
      taken : Option ShortBuf → (Session × S) × Reply ControlMessageEnum
      taken x = elim x [
        | none ↦ ((s, c), panicked)
        | some buf ↦ ((record s { ctrl_buf = buf }, c), ok (received v cm))
      ]

  refilled_never_wire :
      (again : Action (Session × S) ControlMessageEnum) (s : Session)
      (x : ShortBuf × S × Outcome WtError (Unit {0})) (e : Octets.Error)
      → ((t : Session × S) → (again t).1 ≢ err (Error.wire e))
      → (after_fill again s x).1 ≢ err (Error.wire e)
  unfolding after_fill
  refilled_never_wire again s (b, c, Outcome.ok u) e k = k (record s { ctrl_buf = b }, c)
  refilled_never_wire again s (b, c, Outcome.err i) e k = λ z. cc z
  refilled_never_wire again s (b, c, Outcome.panicked) e k = λ z. cc z

  decoded_never_wire :
      (again : Action (Session × S) ControlMessageEnum) (id : ℕ)
      (x : Result (ControlMessageEnum × Reader)) (t : Session × S) (e : Octets.Error)
      → ((t : Session × S) → (again t).1 ≢ err (Error.wire e))
      → (after_decode wt again id x t).1 ≢ err (Error.wire e)
  unfolding after_decode take_message
  decoded_never_wire again id (Octets.ok (cm, rest)) t e k =
      cases (consume (length (buffer t.0.ctrl_buf) - length rest) t.0.ctrl_buf)
    where
      cases :
          (x : Option ShortBuf)
          → (elim x as (λ _. (Session × S) × Reply ControlMessageEnum) [
            | none ↦ (t, panicked)
            | some buf ↦ ((record (t.0) { ctrl_buf = buf }, t.1), ok cm)
          ]).1
            ≢ err (Error.wire e)
      cases none z = cc z
      cases (some b) z = cc z
  decoded_never_wire again id (Octets.err Octets.buffer_too_short) t e k =
      refilled_never_wire again t.0
        (fill (wt.recv_stream id t.0.webtransport_session_id) t.0.ctrl_buf t.1) e k
  decoded_never_wire again id (Octets.err Octets.from_utf8_error) t e k = λ z. cc z
  decoded_never_wire again id (Octets.err Octets.protocol_violation) t e k = λ z. cc z
  decoded_never_wire again id Octets.panic t e k = λ z. cc z

  read_messages_never_wire :
      (fuel id : ℕ) (t : Session × S) (e : Octets.Error)
      → (read_messages wt fuel id t).1 ≢ err (Error.wire e)
  unfolding read_messages
  read_messages_never_wire zero id t e = λ z. cc z
  read_messages_never_wire (suc fuel) id t e =
      decoded_never_wire (read_messages wt fuel id) id
        (Enum.from_bytes (version_or_setup t.0) (buffer t.0.ctrl_buf)) t e
        (λ t. read_messages_never_wire fuel id t e)

  -- next_control_message never returns an error of the wire format, for any number of rounds and in
  -- any state: the arm of poll that closes the session on a protocol violation is not reached.
  pub next_control_message_never_wire :
      (fuel : ℕ) (t : Session × S) (e : Octets.Error)
      → (next_control_message wt fuel t).1 ≢ err (Error.wire e)
  unfolding next_control_message
  next_control_message_never_wire fuel t e = cases t.0.control_stream_id
    where
      cases : (x : Option ℕ) → (after (unwrap x t) (read_messages wt fuel)).1 ≢ err (Error.wire e)
      cases none = λ z. cc z
      cases (some id) = read_messages_never_wire fuel id t e
