-- ===== src/Wire/Control/Subscribe/RoundTrip.antt =====
use quiche_moq.Common.{
  All, List, Option, [], arith, if◌then◌else◌, length, length-append, refl, ℕ, ◌++◌, ◌<◌, ◌↔◌, ◌∷◌,
  ◌≡◌, ◌≤◌,
}
use quiche_moq.Octets.{Octets, err, ok, protocol_violation, pure}
use quiche_moq.Octets.Codec.{Codes, last, put_unwrapped, seq, write_lift}
use quiche_moq.Octets.Fields.{
  HasVarint, IsAbsent, IsPresent, IsVarint, absent_codes, u8_codes, u8_field, varint_codes,
  varint_field,
}
use quiche_moq.Wire.Version.{
  IsDraft, Version, between, draft_07, draft_10, draft_11, draft_12, draft_16, ranges,
}
use quiche_moq.Wire.Tuple.{Bytes, get_sized, put_sized}
use quiche_moq.Wire.Tuple.RoundTrip.{sized_codes}
use quiche_moq.Wire.Tuple.RoundTrip as Tuple
use quiche_moq.Wire.Namespace.{Namespace}
use quiche_moq.Wire.Tuple as Plain
use quiche_moq.Wire.Location.{Location}
use quiche_moq.Wire.Location
use quiche_moq.Wire.Parameters.RoundTrip.{AreEncodable, received}
use quiche_moq.Wire.Parameters.RoundTrip as Received
use quiche_moq.Wire.Control.FilterType.{FilterType, has_start_location, has_end_group}
use quiche_moq.Wire.Control.FilterType
use quiche_moq.Wire.Control.Subscribe.{
  SubscribeMessage, track_namespace, track_name, total_length, full_track_name_len, validate,
  to_body_bytes, from_body_bytes, put_track_alias, get_track_alias, put_forward, get_forward,
  get_start_location, get_end_group, put_track_namespace,
}

pub record IsEncodable (version : Version) (m : SubscribeMessage) : Type 0 where
  pub valid : validate m ≡ ok tt
  pub request_id_fits : IsVarint m.request_id
  pub alias_old : version ≤ draft_11 → HasVarint m.track_alias
  pub alias_new : draft_11 < version → IsAbsent m.track_alias
  pub forward_old : version ≤ draft_10 → IsAbsent m.forward
  pub forward_new : draft_10 < version → IsPresent m.forward
  pub filter : FilterType.IsEncodable m.filter_type
  pub start : IsAbsent m.start_location
  pub end : IsAbsent m.end_group
  pub pairs : AreEncodable version m.parameters

-- The bytes of the fields, one field behind another.
abbrev pub joined : List Bytes → Bytes
joined [] = []
joined (n ∷ ns) = n ++ joined ns

-- The namespace has 1 to 32 fields, and with the name it has at most 4096 bytes.
abbrev pub IsNamed : SubscribeMessage → Type 0
IsNamed m =
    (1 ≤ length (track_namespace m))
    × (length (track_namespace m) ≤ 32)
    × (length (joined (track_namespace m) ++ track_name m) ≤ 4096)

total_length-joined : (ns : List Bytes) → total_length ns ≡ length (joined ns)
unfolding total_length
total_length-joined [] = refl
total_length-joined (n ∷ ns) = omega (arith, total_length-joined ns, length-append n (joined ns))

full_length :
    (m : SubscribeMessage)
    → full_track_name_len m ≡ length (joined (track_namespace m) ++ track_name m)
unfolding full_track_name_len
full_length m = omega (
  arith,
  total_length-joined (track_namespace m),
  length-append (joined (track_namespace m)) (track_name m),
)

-- validate returns ok exactly if the namespace of the SUBSCRIBE has 1 to 32 fields and the bytes of
-- its fields and of the track name, one behind another, are at most 4096, and protocol_violation
-- exactly if not.
pub validate_iff :
    (m : SubscribeMessage)
    → ((validate m ≡ ok tt) ↔ IsNamed m) × ((validate m ≡ err protocol_violation) ↔ ¬ IsNamed m)
unfolding validate between
validate_iff m = ground (arith, full_length m)

parts_fit : (ns : List Bytes) → total_length ns ≤ 4096 → All (λ n. IsVarint (length n)) ns
unfolding total_length
parts_fit [] h = tt
parts_fit (n ∷ ns) h = (omega arith, parts_fit ns (omega arith))

-- The namespace and the name of a SUBSCRIBE that validate accepts can be encoded: each field and
-- the name has a length that fits a varint, and the number of fields can be allocated for by the
-- reader.
pub valid-IsEncodable :
    (m : SubscribeMessage)
    → validate m ≡ ok tt
    → Tuple.IsEncodable (track_namespace m) × IsVarint (length (track_name m))
unfolding full_track_name_len
valid-IsEncodable m v =
    let (lo, hi, full) = (validate_iff m).0.0 v in
    (
      record {
        fields = parts_fit (track_namespace m) (omega (arith, full_length m));
        count = omega arith;
      },
      omega (arith, full_length m),
    )

module _ ⦃o : Octets⦄ (version : Version) where
  -- A filter that `to_bytes` has code for has neither a location nor an end.
  filter_codes :
      (f : FilterType) (l : Option Location) (e : Option ℕ)
      → FilterType.IsEncodable f
      → IsAbsent l
      → IsAbsent e
      → Codes
          (if has_start_location f then put_unwrapped Location.to_bytes l else pure tt)
          (get_start_location f)
          l
        × Codes
            (if has_end_group f then put_unwrapped o.put_varint e else pure tt)
            (get_end_group f)
            e
  unfolding has_start_location has_end_group get_start_location get_end_group
  filter_codes FilterType.largest_object l e h a b = (absent_codes l a, absent_codes e b)
  filter_codes FilterType.next_group_start l e h a b = (absent_codes l a, absent_codes e b)
  filter_codes FilterType.absolute_start l e h a b = absurd h
  filter_codes FilterType.absolute_range l e h a b = absurd h

  namespace_codes :
      (ns : Namespace) → Tuple.IsEncodable ns → Codes (put_track_namespace ns) Plain.from_bytes ns
  unfolding put_track_namespace Plain.to_bytes
  namespace_codes ns v = Tuple.tuple_codes ns v

  -- In every draft from 07 to 16, the body of a SUBSCRIBE that validate accepts, whose numbers fit
  -- a varint, which has a track alias up to draft 11 and a forward byte from draft 11 on and only
  -- then, whose filter is one that to_bytes has code for, without start location and end group, is
  -- read back with its parameters as received says; a proper prefix is answered by
  -- buffer_too_short.
  pub subscribe_codes :
      (m : SubscribeMessage)
      → IsDraft version
      → IsEncodable version m
      → Codes
          (to_body_bytes version m)
          (from_body_bytes version)
          (record m { parameters = received version m.parameters })
  unfolding to_body_bytes from_body_bytes put_track_alias get_track_alias put_forward get_forward
  subscribe_codes m d v =
      let (ns, name) = valid-IsEncodable m v.valid in
      let (location, end) =
        filter_codes m.filter_type m.start_location m.end_group v.filter v.start v.end in
      write_lift (validate m) v.valid (
        seq _ (varint_codes _ v.request_id_fits) (
          seq _
            (ranges draft_07 draft_11 draft_12 draft_16 version d.0 d.1 (omega arith)
              (λ h. varint_field m.track_alias (v.alias_old h))
              (λ h. absent_codes m.track_alias (v.alias_new h)))
            (seq _ (namespace_codes (track_namespace m) ns) (
              seq _ (sized_codes (track_name m) name) (
                seq _ (u8_codes _) (
                  seq _ (u8_codes _) (
                    seq _
                      (ranges draft_07 draft_10 draft_11 draft_16 version d.0 d.1 (omega arith)
                        (λ h. absent_codes m.forward (v.forward_old h))
                        (λ h. u8_field m.forward (v.forward_new h)))
                      (seq _ (FilterType.codes m.filter_type v.filter) (
                        seq _ location (
                          seq _ end (
                            last _
                              (Received.parameters_codes version m.parameters d v.pairs))))))))))))
