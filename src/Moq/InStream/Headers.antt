-- ===== src/Moq/InStream/Headers.antt =====
-- The loop that reads an object header: when it ends, and when it does not.
use quiche_moq.Common.{
  ==_iff, Bool-cases, List, Option, [], ap, append-nil, arith, drop, drop-all, inl, inr, length,
  ltb, ltb→le, ltb→lt, none, refl, some, subst, suc, sym, take, take-all, zero, ℕ, ◌++◌, ◌+◌, ◌<◌,
  ◌==◌, ◌∙◌, ◌≡◌, ◌≢◌, ◌≤◌,
}
use quiche_moq.Common.Outcome.{Outcome, ok, err, panicked}
use quiche_moq.Octets.{Octets, Reader, Result, bind, ◌>>=◌}
use quiche_moq.Octets
use quiche_moq.ShortBuf.{Callback, ShortBuf, buffer, compact, extend, fill, len}
use quiche_moq.ShortBuf.Queue.{Answers-IsFillAt, IsValid, length-buffer, len_le}
use quiche_moq.ShortBuf.Queue.Fill.{fill_adds, fill_queue, space}
use quiche_moq.Wire.Version.{Version}
use quiche_moq.Wire.Subgroup.{SubgroupHeader}
use quiche_moq.Wire.Object.{ObjectHeader}
use quiche_moq.Wire.Object
use quiche_moq.Webtransport.{IsReceiver, Transport, Error as WtError}
use quiche_moq.Moq.Error.{Error}
use quiche_moq.Moq.InStream.{
  InStream, after_parse, after_refill, read_headers, read_in_subgroup, read_obj_hdr, buf_len,
}

-- A full buffer holds an object header of the subgroup, or something that is none.
abbrev pub Fits : ⦃o : Octets⦄ → Version → SubgroupHeader → Type 0
Fits version h =
    (b : Reader)
    → buf_len ≤ length b
    → Object.from_bytes version h b ≢ Octets.err Octets.buffer_too_short

-- A read that ends, in a state that is as good as the one before.
abbrev pub Ends :
    {S : Type 0}
    → (S → Type 0)
    → (S → ℕ)
    → S
    → Option (InStream × S × Outcome Error ObjectHeader)
    → Type 0
Ends {S} P left s x =
    (r : InStream × S × Outcome Error ObjectHeader) × (x ≡ some r) × P r.1 × (left r.1 ≤ left s)

module _ ⦃o : Octets⦄ {S : Type 0} (wt : Transport S) (P : S → Type 0) (left : S → ℕ)
    (w : IsReceiver wt P left) (h : SubgroupHeader) where
  pub read_headers_total :
      (fuel : ℕ) (t : InStream) (s : S)
      → P s
      → IsValid t.buf
      → length t.buf.buf ≡ buf_len
      → Fits t.version h
      → buf_len + left s < fuel + len t.buf
      → Ends P left s (read_headers wt fuel h t s)
  unfolding read_headers after_parse fill
  read_headers_total zero t s p v l f k = absurd (omega (arith, len_le t.buf v))
  read_headers_total (suc fuel) t s p v l f k =
      parsed (λ c s' p' v' l' k'. read_headers_total fuel (record t { buf = c }) s' p' v' l' f k')
        (Object.from_bytes t.version h (buffer t.buf)) refl
    where
      func : S → List ℕ → S × List ℕ × Outcome WtError ℕ
      func = wt.recv_stream t.stream_id t.session_id

      refilled :
          (x : ShortBuf × S × Outcome WtError (Unit {0}))
          → P x.1
          → left x.1 ≤ left s
          → (x.2 ≡ ok tt → Ends P left x.1 (read_headers wt fuel h (record t { buf = x.0 }) x.1))
          → Ends P left s (after_refill (read_headers wt fuel h) t x)
      refilled (b, s', ok u) p d ih = let (r, e, q, d') = ih refl in (r, e, q, omega (arith, d, d'))
      refilled (b, s', err WtError.done) p d ih = (_, refl, p, d)
      refilled (b, s', err WtError.missing_session_id) p d ih = (_, refl, p, d)
      refilled (b, s', err WtError.no_stream_state) p d ih = (_, refl, p, d)
      refilled (b, s', err WtError.insufficient_capacity) p d ih = (_, refl, p, d)
      refilled (b, s', err WtError.fin) p d ih = (_, refl, p, d)
      refilled (b, s', err (WtError.stream_reset i)) p d ih = (_, refl, p, d)
      refilled (b, s', err (WtError.invalid_stream_state i)) p d ih = (_, refl, p, d)
      refilled (b, s', panicked) p d ih = (_, refl, p, d)

      parsed :
          ((c : ShortBuf) (s' : S)
            → P s'
            → IsValid c
            → length c.buf ≡ buf_len
            → buf_len + left s' < fuel + len c
            → Ends P left s' (read_headers wt fuel h (record t { buf = c }) s'))
          → (x : Result (ObjectHeader × Reader)) → Object.from_bytes t.version h (buffer t.buf) ≡ x
          → Ends P left s (after_parse wt (read_headers wt fuel h) t s x)
      parsed ih (Octets.ok (oh, rest)) e = (_, refl, p, omega arith)
      parsed ih (Octets.err Octets.buffer_too_short) e =
          let called : S → List ℕ → S × List ℕ × Outcome WtError ℕ = λ _. func s in
          let slice : List ℕ = space func t.buf in
          let answers = w.answers t.stream_id t.session_id s slice p in
          let receives =
            Answers-IsFillAt func left s (λ b. w.answers t.stream_id t.session_id s b p) in
          let (valid, same, room, filled) = fill_queue called t.buf s v receives in
          let less : length (buffer t.buf) < buf_len =
            elim (Bool-cases (ltb (length (buffer t.buf)) buf_len)) [
              | inl a ↦ ltb→lt _ _ a
              | inr a ↦ absurd (f (buffer t.buf) (ltb→le _ _ a) e)
            ] in
          let some_room : 1 ≤ length slice = omega (arith, room, l, less, length-buffer t.buf v) in
          refilled (fill func t.buf s) (w.stays t.stream_id t.session_id s slice p) answers.1
            (λ good.
              let (n, a, longer) = fill_adds called t.buf s v receives good in
              ih (fill func t.buf s).0 (fill func t.buf s).1
                (w.stays t.stream_id t.session_id s slice p) valid (same ∙ l)
                (omega (arith, k, longer, (answers.2 n a).1 some_room)))
      parsed ih (Octets.err Octets.from_utf8_error) e = (_, refl, p, omega arith)
      parsed ih (Octets.err Octets.protocol_violation) e = (_, refl, p, omega arith)
      parsed ih Octets.panic e = (_, refl, p, omega arith)

module _ ⦃o : Octets⦄ where
  -- In a subgroup without extension headers, three numbers are all that is read.
  plain-Fits : (version : Version) (h : SubgroupHeader) → h.ty ≡ 0x4 → Fits version h
  unfolding Object.from_bytes Object.get_extension_headers Object.get_status ◌>>=◌
  plain-Fits version h t b l q =
      let (v, r, e, k) = o.get_varint_room b (omega (arith, l)) in
      let (v', r', e', k') = o.get_varint_room r (omega (arith, l, k)) in
      let (v'', r'', e'', k'') = o.get_varint_room r' (omega (arith, l, k, k')) in
      elim (Bool-cases (v' == 0)) [
        | inl z ↦ cc (rw (t, e, e', z, e'') at q)
        | inr z ↦ cc (rw (t, e, e', z) at q)
      ]

  pub read_obj_hdr_total :
      {S : Type 0} (wt : Transport S) (P : S → Type 0) (left : S → ℕ) (h : SubgroupHeader)
      (fuel : ℕ) (t : InStream) (s : S)
      → IsReceiver wt P left
      → P s
      → buf_len + left s < fuel
      → t.subgroup_header ≡ some h
      → h.ty ≡ 0x4
      → IsValid t.buf
      → length t.buf.buf ≡ buf_len
      → Ends P left s (read_obj_hdr wt fuel t s)
  unfolding read_obj_hdr read_in_subgroup
  read_obj_hdr_total wt P left h fuel t s w p n e k v l =
      subst (λ x. Ends P left s (read_in_subgroup wt x fuel t s)) (sym e)
        (elim (Bool-cases (t.remaining_object_payload == 0)) [
          | inl z ↦ rw z (
              read_headers_total wt P left w h fuel t s p v l (plain-Fits t.version h k)
                (omega (arith, n)))
          | inr z ↦ rw z (_, refl, p, omega arith)
        ])

module _ {S E : Type 0} (func : Callback S E) where
  -- A full array stays as it is where nothing is added.
  fill_full :
      (b : ShortBuf) (s : S)
      → b.offset ≡ 0
      → b.end ≡ length b.buf
      → (func s []).1 ≡ []
      → (func s []).2 ≡ ok 0
      → fill func b s ≡ (b, (func s []).0, ok tt)
  unfolding fill compact extend
  fill_full b s z e slice a =
      let front : compact b ≡ b = rw ((==_iff b.offset 0).1 z) refl in
      let all : drop b.end b.buf ≡ [] = rw e (drop-all b.buf) in
      let whole : take b.end b.buf ++ (func s []).1 ≡ b.buf =
        rw (slice, e) (append-nil _ ∙ take-all b.buf) in
      let end_same : b.end + 0 ≡ b.end = omega arith in
      ap
        (λ (c : ShortBuf).
          let called = func s (drop c.end c.buf) in
          let extended = extend c (called.1, called.2) in
          let r : ShortBuf × S × Outcome E (Unit {0}) = (extended.0, called.0, extended.1) in r)
        front
      ∙ rw (all, a) (λ i. (record b { buf = whole i; end = end_same i }, (func s []).0, ok tt))

module _ ⦃o : Octets⦄ {S : Type 0} (wt : Transport S) (h : SubgroupHeader) where
  pub read_headers_stuck :
      (fuel : ℕ) (t : InStream) (s : S)
      → t.buf.offset ≡ 0
      → t.buf.end ≡ length t.buf.buf
      → ((s : S) → (wt.recv_stream t.stream_id t.session_id s []).1 ≡ [])
      → ((s : S) → (wt.recv_stream t.stream_id t.session_id s []).2 ≡ ok 0)
      → Object.from_bytes t.version h (buffer t.buf) ≡ Octets.err Octets.buffer_too_short
      → read_headers wt fuel h t s ≡ none
  unfolding read_headers after_parse after_refill
  read_headers_stuck zero t s z e q a f = refl
  read_headers_stuck (suc fuel) t s z e q a f =
      rw (f, fill_full (wt.recv_stream t.stream_id t.session_id) t.buf s z e (q s) (a s))
        (read_headers_stuck fuel t _ z e q a f)
