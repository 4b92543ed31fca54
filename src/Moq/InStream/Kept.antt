-- ===== src/Moq/InStream/Kept.antt =====
-- The subgroup header of a stream stays what it is once it is read.
use quiche_moq.Common.{
  Bool-cases, List, Option, ap, inl, inr, length, none, refl, some, subst, suc, sym, zero, ℕ, ◌-◌,
  ◌==◌, ◌∙◌, ◌≡◌,
}
use quiche_moq.Common.Outcome.{Outcome, ok, err, panicked}
use quiche_moq.Octets.{Octets, Reader, Result}
use quiche_moq.Octets
use quiche_moq.ShortBuf.{ShortBuf, buffer, fill, is_empty, consume}
use quiche_moq.Wire.Subgroup.{SubgroupHeader}
use quiche_moq.Wire.Object.{ObjectHeader}
use quiche_moq.Wire.Object
use quiche_moq.Webtransport.{Transport, Error as WtError}
use quiche_moq.Moq.Error.{Error}
use quiche_moq.Moq.InStream.{
  InStream, after_fill, after_parse, after_read, after_refill, after_header, consume_to,
  parse_subgroup, read, read_headers, read_in_subgroup, read_obj_hdr, read_obj_pld,
}

-- The track that the header of the stream names.
unfoldable pub alias : InStream → Option ℕ
alias t = elim t.subgroup_header [ none ↦ none | some h ↦ some h.track_alias ]

consume_to-header :
    {A : Type 0} (rest : Reader) (t : InStream) (a : A)
    → (consume_to {E = Error} rest t a).0.subgroup_header ≡ t.subgroup_header
unfolding consume_to
consume_to-header {A} rest t a = cases (consume (length (buffer t.buf) - length rest) t.buf)
  where
    cases :
        (c : Option ShortBuf)
        → (elim c as (λ _. InStream × Outcome Error A) [
          | none ↦ (t, panicked)
          | some buf ↦ (record t { buf = buf }, ok a)
        ]).0.subgroup_header
          ≡ t.subgroup_header
    cases none = refl
    cases (some b) = refl

module _ ⦃o : Octets⦄ where
  parse_subgroup-header :
      (t : InStream) (h : SubgroupHeader)
      → t.subgroup_header ≡ some h
      → (parse_subgroup t).0.subgroup_header ≡ some h
  unfolding parse_subgroup
  parse_subgroup-header t h e = rw e refl

  module _ {S : Type 0} where
    after_fill-header :
        (t : InStream) (h : SubgroupHeader) (x : ShortBuf × S × Outcome WtError (Unit {0}))
        → t.subgroup_header ≡ some h
        → (after_fill t x).0.subgroup_header ≡ some h
    unfolding after_fill
    after_fill-header t h (b, s, ok u) e = parse_subgroup-header (record t { buf = b }) h e
    after_fill-header t h (b, s, err WtError.done) e = e
    after_fill-header t h (b, s, err WtError.missing_session_id) e = e
    after_fill-header t h (b, s, err WtError.no_stream_state) e = e
    after_fill-header t h (b, s, err WtError.insufficient_capacity) e = e
    after_fill-header t h (b, s, err WtError.fin) e = e
    after_fill-header t h (b, s, err (WtError.stream_reset i)) e = e
    after_fill-header t h (b, s, err (WtError.invalid_stream_state i)) e = e
    after_fill-header t h (b, s, panicked) e = e

    pub read-header :
        (wt : Transport S) (t : InStream) (s : S) (h : SubgroupHeader)
        → t.subgroup_header ≡ some h
        → (read wt t s).0.subgroup_header ≡ some h
    unfolding read
    read-header wt t s h e = elim (Bool-cases (is_empty t.buf)) [
      | inl z ↦
          rw z (after_fill-header t h (fill (wt.recv_stream t.stream_id t.session_id) t.buf s) e)
      | inr z ↦ rw z (parse_subgroup-header t h e)
    ]

    -- A stream that the loop leaves has the header of the stream `t`.
    abbrev Same : InStream → Option (InStream × S × Outcome Error ObjectHeader) → Type 0
    Same t none = Unit {0}
    Same t (some r) = r.0.subgroup_header ≡ t.subgroup_header

    after_header-Same :
        (t : InStream) (s : S) (x : InStream × Outcome Error ObjectHeader)
        → x.0.subgroup_header ≡ t.subgroup_header
        → Same t (some ((after_header x).0, s, (after_header x).1))
    unfolding after_header
    after_header-Same t s (u, ok h) e = e
    after_header-Same t s (u, err i) e = e
    after_header-Same t s (u, panicked) e = e

    module _ (wt : Transport S) (h : SubgroupHeader) where
      read_headers-Same : (fuel : ℕ) (t : InStream) (s : S) → Same t (read_headers wt fuel h t s)
      unfolding read_headers after_parse after_refill
      read_headers-Same zero t s = tt
      read_headers-Same (suc fuel) t s =
          parsed (λ c s'. read_headers-Same fuel (record t { buf = c }) s')
            (Object.from_bytes t.version h (buffer t.buf))
        where
          refilled :
              ((c : ShortBuf) (s' : S) → Same t (read_headers wt fuel h (record t { buf = c }) s'))
              → (x : ShortBuf × S × Outcome WtError (Unit {0}))
              → Same t (after_refill (read_headers wt fuel h) t x)
          refilled ih (b, s, ok u) = ih b s
          refilled ih (b, s, err WtError.done) = refl
          refilled ih (b, s, err WtError.missing_session_id) = refl
          refilled ih (b, s, err WtError.no_stream_state) = refl
          refilled ih (b, s, err WtError.insufficient_capacity) = refl
          refilled ih (b, s, err WtError.fin) = refl
          refilled ih (b, s, err (WtError.stream_reset i)) = refl
          refilled ih (b, s, err (WtError.invalid_stream_state i)) = refl
          refilled ih (b, s, panicked) = refl

          parsed :
              ((c : ShortBuf) (s' : S) → Same t (read_headers wt fuel h (record t { buf = c }) s'))
              → (x : Result (ObjectHeader × Reader))
              → Same t (after_parse wt (read_headers wt fuel h) t s x)
          parsed ih (Octets.ok (oh, rest)) = after_header-Same t s _ (consume_to-header rest t oh)
          parsed ih (Octets.err Octets.buffer_too_short) = refilled ih _
          parsed ih (Octets.err Octets.from_utf8_error) = refl
          parsed ih (Octets.err Octets.protocol_violation) = refl
          parsed ih Octets.panic = refl

    read_in_subgroup-Same :
        (wt : Transport S) (x : Option SubgroupHeader) (fuel : ℕ) (t : InStream) (s : S)
        → Same t (read_in_subgroup wt x fuel t s)
    unfolding read_in_subgroup
    read_in_subgroup-Same wt none fuel t s = refl
    read_in_subgroup-Same wt (some h) fuel t s =
        elim (Bool-cases (t.remaining_object_payload == 0)) [
          | inl z ↦ rw z (read_headers-Same wt h fuel t s)
          | inr z ↦ rw z refl
        ]

    pub read_obj_hdr-header :
        (wt : Transport S) (fuel : ℕ) (t : InStream) (s : S)
        (r : InStream × S × Outcome Error ObjectHeader)
        → read_obj_hdr wt fuel t s ≡ some r
        → r.0.subgroup_header ≡ t.subgroup_header
    unfolding read_obj_hdr
    read_obj_hdr-header wt fuel t s r e =
        subst (Same t) e (read_in_subgroup-Same wt t.subgroup_header fuel t s)

after_read-header :
    (t : InStream) (r : Outcome WtError ℕ) → (after_read t r).0.subgroup_header ≡ t.subgroup_header
unfolding after_read
after_read-header t (ok n) = refl
after_read-header t (err WtError.done) = refl
after_read-header t (err WtError.missing_session_id) = refl
after_read-header t (err WtError.no_stream_state) = refl
after_read-header t (err WtError.insufficient_capacity) = refl
after_read-header t (err WtError.fin) = refl
after_read-header t (err (WtError.stream_reset i)) = refl
after_read-header t (err (WtError.invalid_stream_state i)) = refl
after_read-header t panicked = refl

module _ {S : Type 0} where
  pub read_obj_pld-header :
      (wt : Transport S) (buf : List ℕ) (t : InStream) (s : S)
      → (read_obj_pld wt buf t s).0.subgroup_header ≡ t.subgroup_header
  unfolding read_obj_pld
  read_obj_pld-header wt buf t s = elim (Bool-cases (t.remaining_object_payload == 0)) [
    | inl z ↦ rw z refl
    | inr z ↦ elim (Bool-cases (length buf == 0)) [
      | inl y ↦ rw (z, y) refl
      | inr y ↦ rw (z, y) (after_read-header (record t { buf = _ }) _)
    ]
  ]

pub alias-same : (u t : InStream) → u.subgroup_header ≡ t.subgroup_header → alias u ≡ alias t
unfolding alias
alias-same u t e =
    ap
      (λ (x : Option SubgroupHeader). elim x as (λ _. Option ℕ) [
        | none ↦ none
        | some h ↦ some h.track_alias
      ])
      e

pub read-alias :
    {S : Type 0} ⦃o : Octets⦄ (wt : Transport S) (t : InStream) (s : S) (a : ℕ)
    → alias t ≡ some a
    → alias (read wt t s).0 ≡ some a
unfolding alias
read-alias wt t s a e = cases t.subgroup_header refl e
  where
    cases :
        (x : Option SubgroupHeader)
        → t.subgroup_header ≡ x
        → elim x as (λ _. Option ℕ) [ none ↦ none | some h ↦ some h.track_alias ] ≡ some a
        → alias (read wt t s).0 ≡ some a
    cases none e f = absurd (cc f)
    cases (some h) e f = alias-same (read wt t s).0 t (read-header wt t s h e ∙ sym e) ∙ rw e f
