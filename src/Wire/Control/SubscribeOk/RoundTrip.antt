-- ===== src/Wire/Control/SubscribeOk/RoundTrip.antt =====
use quiche_moq.Common.{
  ==_iff, All, Bool-cases, List, Option, [], ap, arith, inl, inr, leb, leb→le, leb→lt, length,
  length-append, none, refl, some, subst, sym, ℕ, ◌%◌, ◌++◌, ◌+◌, ◌<◌, ◌==◌, ◌^◌, ◌∷◌, ◌≡◌, ◌≤◌,
}
use quiche_moq.Octets.{Octets, lift, ok, ◌>>=◌}
use quiche_moq.Octets.Codec.{Codes, finish, last, seq, write_lift_as}
use quiche_moq.Octets.Fields.{
  HasVarint, IsAbsent, IsVarint, absent_codes, u8_codes, varint_codes, varint_field,
}
use mathlib.Core.Path.{fun_ext, subst}
use quiche_moq.Wire.Version.{
  IsDraft, Version, between-false, between-true, draft_07, draft_11, draft_12, draft_15, draft_16,
  ranges,
}
use quiche_moq.Wire.Location.{Location}
use quiche_moq.Wire.Location
use quiche_moq.Wire.Parameter.{Parameter, into, new_bytes, new_varint}
use quiche_moq.Wire.Parameter.RoundTrip.{IsEncodable}
use quiche_moq.Wire.Parameters.{Parameters}
use quiche_moq.Wire.Parameters
use quiche_moq.Wire.Parameters.RoundTrip.{AreEncodable, received}
use quiche_moq.Wire.Parameters.RoundTrip as Received
use quiche_moq.Wire.Control.SubscribeOk.{
  GroupOrder, SubscribeOkMessage, SubscribeOkParameters, ascending, descending, entries,
  expires_entry, from_body_bytes, from_bytes_inline, from_parameters, get_location, get_parameters,
  get_track_alias, location_entry, order_id, put_location, put_parameters, to_body_bytes,
  to_bytes_inline,
}
use quiche_moq.Wire.Control.SubscribeOk.Sorted.{
  IsExtra, IsPlace, from_parameters-entries, from_parameters-sort, location_bytes_lem,
}

pub record IsSendable (version : Version) (p : SubscribeOkParameters) : Type 0 where
  pub expires_fits : IsVarint p.expires
  pub place : IsPlace p.largest_location
  pub extra : All (IsEncodable version) p.extra_parameters
  pub count : length p.extra_parameters + 3 < 2 ^ 62
  pub unknown : draft_15 < version → All IsExtra p.extra_parameters

number_IsEncodable :
    (version ty v : ℕ)
    → IsVarint ty
    → ty % 2 ≡ 0
    → IsVarint v
    → IsEncodable version (new_varint ty v)
unfolding new_varint into
number_IsEncodable version ty v t e h = record {
  type_fits = t;
  value_fits = h;
  parity = λ k. record { type_fits = t; value_fits = (e, h) };
}

bytes_IsEncodable :
    (version ty : ℕ) (b : List ℕ)
    → IsVarint ty
    → ty % 2 ≡ 1
    → IsVarint (length b)
    → IsEncodable version (new_bytes ty b)
unfolding new_bytes into
bytes_IsEncodable version ty b t e h = record {
  type_fits = t;
  value_fits = h;
  parity = λ k. record { type_fits = t; value_fits = (e, h) };
}

All-append : (P : Parameter → Type 0) (ps qs : Parameters) → All P ps → All P qs → All P (ps ++ qs)
All-append P [] qs h k = k
All-append P (p ∷ ps) qs (h, hs) k = (h, All-append P ps qs hs k)

module _ ⦃o : Octets⦄ where
  location_codes : (l : Option Location) → IsPlace l → Codes (put_location l) get_location l
  unfolding put_location get_location
  location_codes none h = finish _ refl (u8_codes 0)
  location_codes (some l) h =
      let c = Location.codes l h.0 h.1 in
      write_lift_as _ _ (location_bytes_lem l h.0 h.1) (
        seq _ (u8_codes 1) (
          last some (record {
            bytes = c.bytes;
            puts = o.put_bytes_lem c.bytes;
            gets = λ r. c.gets r;
            cuts = λ r cut. c.cuts r cut;
          })))

  inline_codes :
      (version : Version) (p : SubscribeOkParameters)
      → IsDraft version
      → IsSendable version p
      → Codes
          (to_bytes_inline version p)
          (from_bytes_inline version)
          (record p { extra_parameters = received version p.extra_parameters })
  unfolding to_bytes_inline from_bytes_inline order_id
  inline_codes version p d v = cases p.group_order
    where
      cases :
          (g : GroupOrder)
          → Codes
              (to_bytes_inline version (record p { group_order = g }))
              (from_bytes_inline version)
              (record p { group_order = g; extra_parameters = received version p.extra_parameters })
      cases ascending = seq _ (varint_codes _ v.expires_fits) (
          seq _ (u8_codes 1) (
            seq _ (location_codes p.largest_location v.place) (
              last _ (
                Received.parameters_codes version p.extra_parameters d
                  (record { each = v.extra; count = omega (arith, v.count) })))))
      cases descending = seq _ (varint_codes _ v.expires_fits) (
          seq _ (u8_codes 2) (
            seq _ (location_codes p.largest_location v.place) (
              last _ (
                Received.parameters_codes version p.extra_parameters d
                  (record { each = v.extra; count = omega (arith, v.count) })))))

  location_facts :
      (l : Option Location)
      → IsPlace l
      → (ls : Parameters) × (location_entry l ≡ ok ls)
        × All (IsEncodable draft_16) ls
        × (length ls ≤ 1)
  unfolding location_entry
  location_facts none h = ([], refl, tt, omega arith)
  location_facts (some l) h =
      let c = Location.codes l h.0 h.1 in
      (
        new_bytes 0x9 c.bytes ∷ [],
        rw (location_bytes_lem l h.0 h.1),
        (
          bytes_IsEncodable draft_16 0x9 c.bytes (omega arith) refl
              (omega (arith, Location.length-codes l h.0 h.1)),
          tt,
        ),
        omega arith,
      )

  expires_facts :
      (e : ℕ)
      → IsVarint e
      → All (IsEncodable draft_16) (expires_entry e) × (length (expires_entry e) ≤ 1)
  unfolding expires_entry
  expires_facts e h = elim (Bool-cases (e == 0)) [
    | inl k ↦ rw k (tt, omega arith)
    | inr k ↦ rw k ((number_IsEncodable draft_16 0x8 e (omega arith) refl h, tt), omega arith)
  ]

  order_fits : (g : GroupOrder) → IsVarint (order_id g)
  unfolding order_id
  order_fits ascending = omega arith
  order_fits descending = omega arith

  -- The sequence of draft 16 can be encoded, and is read as what it was made from.
  entries_facts :
      (p : SubscribeOkParameters)
      → IsSendable draft_16 p
      → (ps : Parameters) × (entries p ≡ ok ps)
        × (from_parameters ps ≡ ok p)
        × AreEncodable draft_16 ps
  unfolding entries
  entries_facts p v =
      let (ls, e, en, n) = location_facts p.largest_location v.place in
      let (xn, m) = expires_facts p.expires v.expires_fits in
      let tail = new_varint 0x22 (order_id p.group_order) ∷ p.extra_parameters in
      let ps = expires_entry p.expires ++ (ls ++ tail) in
      let made : entries p ≡ ok ps = rw e in
      (
        ps,
        made,
        rw made at (from_parameters-entries p v.place (v.unknown (omega arith))),
        record {
          each = All-append (IsEncodable draft_16) (expires_entry p.expires) (ls ++ tail) xn (
              All-append (IsEncodable draft_16) ls tail en (
                number_IsEncodable draft_16 0x22 (order_id p.group_order) (omega arith) refl
                    (order_fits p.group_order),
                v.extra,
              ));
          count = omega (
            arith,
            v.count,
            m,
            n,
            length-append (expires_entry p.expires) (ls ++ tail),
            length-append ls tail,
          );
        },
      )

  sequence_codes :
      (p : SubscribeOkParameters)
      → IsSendable draft_16 p
      → Codes
          (lift (entries p) >>= λ ps. Parameters.to_bytes draft_16 ps)
          (Parameters.from_bytes draft_16 >>= λ ps. lift (from_parameters ps))
          (record p { extra_parameters = received draft_16 p.extra_parameters })
  sequence_codes p v =
      let (ps, e, back, enc) = entries_facts p v in
      write_lift_as (entries p) _ e (
        finish _ (fun_ext (λ s. ap (λ r. lift r s) (sorted ps back)))
          (Received.parameters_codes draft_16 ps (omega arith, omega arith) enc))
    where
      sorted :
          (ps : Parameters)
          → from_parameters ps ≡ ok p
          → from_parameters (received draft_16 ps)
            ≡ ok (record p { extra_parameters = received draft_16 p.extra_parameters })
      sorted ps back = unfold received in rw (from_parameters-sort ps, back)

  ok_parameters_codes :
      (version : Version) (p : SubscribeOkParameters)
      → IsDraft version
      → IsSendable version p
      → Codes
          (put_parameters version p)
          (get_parameters version)
          (record p { extra_parameters = received version p.extra_parameters })
  unfolding put_parameters get_parameters
  ok_parameters_codes version p d v = elim (Bool-cases (leb version draft_15)) [
    | inl e ↦
        rw (between-true draft_07 draft_15 version d.0 (leb→le _ _ e)) (inline_codes version p d v)
    | inr e ↦
        let last : version ≡ draft_16 = omega (arith, leb→lt _ _ e, d.1) in
        rw
          (between-false draft_07 draft_15 version (leb→lt _ _ e), (==_iff version draft_16).1 last)
          (at_last last)
  ]
    where
      at_last :
          version ≡ draft_16
          → Codes
              (lift (entries p) >>= λ ps. Parameters.to_bytes version ps)
              (Parameters.from_bytes version >>= λ ps. lift (from_parameters ps))
              (record p { extra_parameters = received version p.extra_parameters })
      at_last e =
          subst
            (λ version.
              IsSendable version p
              → Codes (lift (entries p) >>= λ ps. Parameters.to_bytes version ps)
                  (Parameters.from_bytes version >>= λ ps. lift (from_parameters ps))
                  (record p { extra_parameters = received version p.extra_parameters }))
            (sym e) (sequence_codes p) v

  -- In every draft from 07 to 16, the body of a SUBSCRIBE_OK whose numbers fit a varint, which has
  -- a track alias from draft 12 on and only then, and whose other parameters are encodable and, in
  -- draft 16, have none of the types 0x8, 0x9 and 0x22, is read back from what to_body_bytes
  -- writes, with the other parameters as Parameters.RoundTrip.received says: also in draft 16,
  -- where expiry, location and group order are parameters that are sorted among the others. A
  -- proper prefix is answered by buffer_too_short.
  pub subscribe_ok_codes :
      (version : Version) (m : SubscribeOkMessage)
      → IsDraft version
      → IsVarint m.request_id
      → (version ≤ draft_11 → IsAbsent m.track_alias)
      → (draft_11 < version → HasVarint m.track_alias)
      → IsSendable version m.parameters
      → Codes (to_body_bytes version m) (from_body_bytes version) (record m {
        parameters = record m.parameters {
          extra_parameters = received version m.parameters.extra_parameters;
        };
      })
  unfolding to_body_bytes from_body_bytes get_track_alias
  subscribe_ok_codes version m d i old new v = seq _ (varint_codes _ i) (
      seq _
        (ranges draft_07 draft_11 draft_12 draft_16 version d.0 d.1 (omega arith)
          (λ h. absent_codes m.track_alias (old h)) (λ h. varint_field m.track_alias (new h)))
        (last _ (ok_parameters_codes version m.parameters d v)))
