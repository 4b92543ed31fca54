-- ===== src/Moq/InStream.antt =====
-- quiche_moq/src/in_stream.rs: a stream that objects are received on.
pub mod Headers
pub mod Kept
pub mod Payload
use quiche_moq.Common.{
  Bool, List, Option, drop, false, if◌then◌else◌, length, none, some, suc, take, true, zero, zeros,
  ℕ, ◌%◌, ◌++◌, ◌+◌, ◌-◌, ◌==◌, ◌^◌,
}
use quiche_moq.Common.Outcome.{Outcome, ok, err, panicked}
use quiche_moq.Octets.{Octets, Reader, Result, bind}
use quiche_moq.Octets
use quiche_moq.ShortBuf.{ShortBuf, buffer, chain_read2, consume, fill, is_empty, min}
use quiche_moq.ShortBuf
use quiche_moq.Wire.Version.{Version}
use quiche_moq.Wire.Subgroup.{SubgroupHeader}
use quiche_moq.Wire.Subgroup
use quiche_moq.Wire.Object.{ObjectHeader}
use quiche_moq.Wire.Object
use quiche_moq.Webtransport.{Transport, Error as WtError}
use quiche_moq.Moq.Error.{Error, done, fin}

abbrev pub buf_len : ℕ
buf_len = 100

pub record InStream : Type 0 where
  pub stream_id : ℕ
  pub session_id : ℕ
  pub version : Version
  pub subgroup_header : Option SubgroupHeader
  pub remaining_object_payload : ℕ
  pub current_object_id : Option ℕ
  pub readable : Bool
  pub buf : ShortBuf
  pub wt_fin : Bool

unfoldable pub new : ℕ → ℕ → Version → InStream
new stream_id session_id version = record {
  stream_id = stream_id;
  session_id = session_id;
  version = version;
  subgroup_header = none;
  remaining_object_payload = 0;
  current_object_id = none;
  readable = false;
  buf = ShortBuf.new (zeros buf_len);
  wt_fin = false;
}

unfoldable pub mark_readable : InStream → InStream
mark_readable t = record t { readable = true }

-- `self.buf.consume(b.off())`, where `rest` is left of the bytes in the buffer; then the rest.
unfoldable pub consume_to : {E A : Type 0} → Reader → InStream → A → InStream × Outcome E A
unfolding consume
consume_to rest t a = elim (consume (length (buffer t.buf) - length rest) t.buf) [
  | none ↦ (t, panicked)
  | some buf ↦ (record t { buf = buf }, ok a)
]

-- The header is parsed: what it says of the payload is kept.
unfoldable pub after_header :
    InStream × Outcome Error ObjectHeader → InStream × Outcome Error ObjectHeader
after_header (t, ok h) =
    (record t { remaining_object_payload = h.payload_len; current_object_id = some h.id }, ok h)
after_header (t, err e) = (t, err e)
after_header (t, panicked) = (t, panicked)

-- `self.remaining_object_payload -= n`, and the errors of `recv_stream`.
unfoldable pub after_read : InStream → Outcome WtError ℕ → InStream × Outcome Error ℕ
after_read t (ok n) = (
  record t { remaining_object_payload = (t.remaining_object_payload + 2 ^ 64 - n) % 2 ^ 64 },
  ok n,
)
after_read t (err WtError.done) = (t, err done)
after_read t (err WtError.fin) = (t, err fin)
after_read t (err (WtError.stream_reset code)) = (t, err fin)
after_read t (err (WtError.invalid_stream_state id)) = (t, err fin)
after_read t (err _) = (t, panicked)
after_read t panicked = (t, panicked)

module _ ⦃o : Octets⦄ where
  unfoldable pub parsed_subgroup :
      InStream → Result (SubgroupHeader × Reader) → InStream × Outcome Octets.Error (Unit {0})
  unfolding consume_to
  parsed_subgroup t (Octets.ok (h, rest)) =
      consume_to rest (record t { subgroup_header = some h }) tt
  parsed_subgroup t (Octets.err e) = (t, err e)
  parsed_subgroup t Octets.panic = (t, panicked)

  -- `if self.subgroup_header.is_none()`
  unfoldable pub parse_subgroup : InStream → InStream × Outcome Octets.Error (Unit {0})
  unfolding parsed_subgroup
  parse_subgroup t = elim t.subgroup_header [
    | some h ↦ (t, ok tt)
    | none ↦
        parsed_subgroup t
          (bind (o.get_varint (buffer t.buf)) (λ ty. Subgroup.from_bytes t.version (buffer t.buf)))
  ]

  module _ {S : Type 0} where
    -- What `read` does with the answer of `fill`.
    unfoldable pub after_fill :
        InStream
        → ShortBuf × S × Outcome WtError (Unit {0})
        → InStream × S × Outcome Octets.Error (Unit {0})
    unfolding parse_subgroup
    after_fill t (buf, s, ok u) = let p = parse_subgroup (record t { buf = buf }) in (p.0, s, p.1)
    after_fill t (buf, s, err WtError.done) = (record t { buf = buf; readable = false }, s, ok tt)
    after_fill t (buf, s, err WtError.fin) =
        (record t { buf = buf; readable = false; wt_fin = true }, s, ok tt)
    after_fill t (buf, s, err (WtError.stream_reset code)) =
        (record t { buf = buf; readable = false; wt_fin = true }, s, ok tt)
    after_fill t (buf, s, err (WtError.invalid_stream_state id)) =
        (record t { buf = buf; readable = false; wt_fin = true }, s, ok tt)
    after_fill t (buf, s, err _) = (record t { buf = buf }, s, panicked)
    after_fill t (buf, s, panicked) = (record t { buf = buf }, s, panicked)

    -- What the loop does with the answer of `fill`, where `again` is its next round.
    unfoldable pub after_refill :
        (InStream → S → Option (InStream × S × Outcome Error ObjectHeader))
        → InStream
        → ShortBuf × S × Outcome WtError (Unit {0})
        → Option (InStream × S × Outcome Error ObjectHeader)
    after_refill again t (buf, s, ok u) = again (record t { buf = buf }) s
    after_refill again t (buf, s, err WtError.done) = some (record t { buf = buf }, s, err done)
    after_refill again t (buf, s, err WtError.fin) = some (record t { buf = buf }, s, err fin)
    after_refill again t (buf, s, err (WtError.stream_reset code)) =
        some (record t { buf = buf }, s, err fin)
    after_refill again t (buf, s, err (WtError.invalid_stream_state id)) =
        some (record t { buf = buf }, s, err fin)
    after_refill again t (buf, s, err _) = some (record t { buf = buf }, s, panicked)
    after_refill again t (buf, s, panicked) = some (record t { buf = buf }, s, panicked)

    module _ (wt : Transport S) where
      unfoldable pub read : InStream → S → InStream × S × Outcome Octets.Error (Unit {0})
      unfolding after_fill is_empty fill
      read t s =
          if is_empty t.buf
          then after_fill t (fill (wt.recv_stream t.stream_id t.session_id) t.buf s)
          else (let p = parse_subgroup t in (p.0, s, p.1))

      unfoldable pub after_parse :
          (InStream → S → Option (InStream × S × Outcome Error ObjectHeader))
          → InStream
          → S
          → Result (ObjectHeader × Reader)
          → Option (InStream × S × Outcome Error ObjectHeader)
      unfolding consume_to after_header after_refill fill
      after_parse again t s (Octets.ok (h, rest)) =
          let r = after_header (consume_to rest t h) in some (r.0, s, r.1)
      after_parse again t s (Octets.err Octets.buffer_too_short) =
          after_refill again t (fill (wt.recv_stream t.stream_id t.session_id) t.buf s)
      after_parse again t s _ = some (t, s, panicked)

      -- The loop of `read_next_object_header`, on fuel: `none` where it is used up.
      unfoldable pub read_headers :
          ℕ → SubgroupHeader → InStream → S → Option (InStream × S × Outcome Error ObjectHeader)
      unfolding after_parse
      read_headers zero h t s = none
      read_headers (suc fuel) h t s =
          after_parse (read_headers fuel h) t s (Object.from_bytes t.version h (buffer t.buf))

      -- `assert_eq!(self.remaining_object_payload, 0)` and the `unwrap` of the subgroup header
      unfoldable pub read_in_subgroup :
          Option SubgroupHeader
          → ℕ
          → InStream
          → S
          → Option (InStream × S × Outcome Error ObjectHeader)
      unfolding read_headers
      read_in_subgroup none fuel t s = some (t, s, panicked)
      read_in_subgroup (some h) fuel t s =
          if t.remaining_object_payload == 0 then read_headers fuel h t s else some (t, s, panicked)

      unfoldable pub read_obj_hdr :
          ℕ → InStream → S → Option (InStream × S × Outcome Error ObjectHeader)
      unfolding read_in_subgroup
      read_obj_hdr fuel t s = read_in_subgroup t.subgroup_header fuel t s

module _ {S : Type 0} (wt : Transport S) where
  -- `buf` as it is left, and the number of bytes that were read into it.
  unfoldable pub read_obj_pld : List ℕ → InStream → S → InStream × S × List ℕ × Outcome Error ℕ
  unfolding after_read chain_read2
  read_obj_pld buf t s =
      let len = min (length buf) t.remaining_object_payload in
      let r = chain_read2 (wt.recv_stream t.stream_id t.session_id) (take len buf) t.buf s in
      if t.remaining_object_payload == 0
      then (t, s, buf, panicked)
      else if length buf == 0
      then (t, s, buf, panicked)
      else (let a = after_read (record t { buf = r.0 }) r.3 in (a.0, r.1, r.2 ++ drop len buf, a.1))
