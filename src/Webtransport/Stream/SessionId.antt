-- ===== src/Webtransport/Stream/SessionId.antt =====
-- The id of the session is read off the front of a stream of the peer.
use quiche_moq.Common.{
  Bool, List, Option, [], ap, append-nil, arith, cons_of_pos, false, if◌then◌else◌, length,
  length-append, ltb, none, refl, some, suc, sym, take, take-append, true, ℕ, ◌++◌, ◌+◌, ◌<◌, ◌^◌,
  ◌∙◌, ◌≡◌, ◌≤◌,
}
use quiche_moq.Common.Outcome.{ok, panicked}
use quiche_moq.Octets.{Octets, Result, Reader}
use quiche_moq.Octets
use quiche_moq.ShortBuf.{ShortBuf, buffer, consume, fill, is_empty, len}
use quiche_moq.ShortBuf
use quiche_moq.ShortBuf.Queue.{IsValid, length-buffer}
use quiche_moq.ShortBuf.Queue.Read.{consume_queue}
use quiche_moq.Webtransport.Quic.{Quic}
use quiche_moq.Webtransport.Stream.{
  Did, Stream, after_fill, after_first, after_id_bytes, again_filled, fill_buf, fill_while,
  new_remote, read_rest, read_session_id, take_id,
}

module _ {S : Type 0} (quic : Quic S) where
  full :
      (fuel : ℕ) (short : ShortBuf → Bool) (t : Stream) (s : S)
      → short t.buf ≡ false
      → fill_while quic (suc fuel) short t s ≡ some (t, s, ok tt)
  unfolding fill_while
  full fuel short t s e =
      ap
        (λ b.
          if b
          then again_filled quic (fill_while quic fuel short) (fill_buf quic t s)
          else some (t, s, ok tt))
        e

  filled :
      (fuel : ℕ) (short : ShortBuf → Bool) (t : Stream) (s s' : S) (b : ShortBuf)
      → short t.buf ≡ true
      → fill (quic.stream_recv t.stream_id) t.buf s ≡ (b, s', ok tt)
      → fill_while quic (suc fuel) short t s ≡ fill_while quic fuel short (record t { buf = b }) s'
  unfolding fill_while fill_buf after_fill again_filled
  filled fuel short t s s' b e f =
      ap
        (λ b.
          if b
          then again_filled quic (fill_while quic fuel short) (fill_buf quic t s)
          else some (t, s, ok tt))
        e
      ∙ ap (λ x. again_filled quic (fill_while quic fuel short) (after_fill t x)) f

  module _ ⦃o : Octets⦄ where
    -- The id is in the buffer.
    read_rest_lem :
        (fuel id : ℕ) (rest : List ℕ) (t : Stream) (s : S)
        → id < 2 ^ 62
        → IsValid t.buf
        → buffer t.buf ≡ o.varint id ++ rest
        → (b : ShortBuf) × (read_rest quic (suc fuel) (buffer t.buf) t s
            ≡ some (record t { buf = b; session_id = some id }, s, ok id))
          × (buffer b ≡ rest)
          × IsValid b
    unfolding read_rest after_id_bytes take_id
    read_rest_lem fuel id rest t s h v e =
        let size = o.length-varint id h in
        let (x, xs, front) =
          cons_of_pos (o.varint id) (omega (arith, size, (o.varint_len_bounds id h).0)) in
        let parsed : o.varint_parse_len x ≡ length (o.varint id) =
          o.varint_parse_len_lem id x xs h front ∙ sym size in
        let long_enough : length (o.varint id) ≤ len t.buf =
          omega (arith, ap length e ∙ length-append (o.varint id) rest, length-buffer t.buf v) in
        let enough : ltb (len t.buf) (length (o.varint id)) ≡ false = ground (arith, long_enough) in
        let (took, left, valid) = consume_queue t.buf (o.varint id) rest v e in
        let got : o.get_varint (take (length (o.varint id)) (buffer t.buf)) ≡ Octets.ok (id, []) =
          ap (λ b. o.get_varint (take (length (o.varint id)) b)) e
          ∙ ap o.get_varint (take-append (o.varint id) rest ∙ sym (append-nil (o.varint id)))
          ∙ o.get_varint_lem id [] h in
        (
          record (t.buf) { offset = t.buf.offset + length (o.varint id) },
          ap (λ b. read_rest quic (suc fuel) b t s) (e ∙ ap (λ f. f ++ rest) front)
              ∙ ap
                  (λ n.
                    after_id_bytes quic n (fill_while quic (suc fuel) (λ buf. ltb (len buf) n) t s))
                  parsed
              ∙ ap (after_id_bytes quic (length (o.varint id)))
                  (full fuel (λ buf. ltb (len buf) (length (o.varint id))) t s enough)
              ∙ ap (λ r. some (by_id (length (o.varint id)) r)) got
              ∙ ap (λ b. some (by_buf id b)) took,
          left,
          valid,
        )
      where
        by_buf : ℕ → Option ShortBuf → Did S ℕ
        by_buf id x = elim x [
          | none ↦ (t, s, panicked)
          | some buf ↦ (record t { buf = buf; session_id = some id }, s, ok id)
        ]

        by_id : ℕ → Result (ℕ × Reader) → Did S ℕ
        by_id n r = elim r [
          | Octets.ok (i, rest) ↦ by_buf i (consume n t.buf)
          | Octets.err e ↦ (t, s, panicked)
          | Octets.panic ↦ (t, s, panicked)
        ]

    -- Where the first fill of a new stream of the peer brings the bytes of an id below 2^62 and
    -- whatever follows them, and leaves the buffer valid, read_session_id returns the id in two
    -- rounds or more of its loops, keeps it as the session of the stream, and leaves exactly what
    -- follows in the buffer.
    pub read_session_id_remote :
        (fuel id stream_id : ℕ) (rest : List ℕ) (s s' : S) (b : ShortBuf)
        → id < 2 ^ 62
        → fill (quic.stream_recv stream_id) (new_remote stream_id).buf s ≡ (b, s', ok tt)
        → IsValid b
        → buffer b ≡ o.varint id ++ rest
        → (t : Stream) × (read_session_id quic (suc (suc fuel)) (new_remote stream_id) s
            ≡ some (t, s', ok id))
          × (t.session_id ≡ some id)
          × (buffer t.buf ≡ rest)
    unfolding read_session_id after_first is_empty len new_remote ShortBuf.new
    read_session_id_remote fuel id stream_id rest s s' b h f v e =
        let t : Stream = record (new_remote stream_id) { buf = b } in
        let (x, xs, front) =
          cons_of_pos (o.varint id)
            (omega (arith, o.length-varint id h, (o.varint_len_bounds id h).0)) in
        let some_bytes : 1 ≤ len b = omega (
          arith,
          ap length e ∙ length-append (o.varint id) rest,
          length-buffer b v,
          o.length-varint id h,
          (o.varint_len_bounds id h).0,
        ) in
        let (b', read, left, valid) = read_rest_lem (suc fuel) id rest t s' h v e in
        (
          record t { buf = b'; session_id = some id },
          ap (after_first quic (suc (suc fuel))) (
                filled (suc fuel) is_empty (new_remote stream_id) s s' b refl f
                ∙ full fuel is_empty t s' (ground (arith, some_bytes)))
              ∙ read,
          refl,
          left,
        )
