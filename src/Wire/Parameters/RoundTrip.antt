-- ===== src/Wire/Parameters/RoundTrip.antt =====
use quiche_moq.Common.{
  All, Bool-cases, [], arith, if◌then◌else◌, inl, inr, leb, leb→le, leb→lt, length, length-map,
  le→leb, lt→leb_false, map, refl, ℕ, ◌<◌, ◌∷◌, ◌≡◌, ◌≤◌,
}
use quiche_moq.Common.Sorting.{sort_by_key, map-sort_by_key}
use quiche_moq.Octets.{Octets}
use quiche_moq.Octets.Codec.{Codes, done, for_each, last, last_as, seq}
use quiche_moq.Octets.Fields.{IsVarint, varint_codes}
use quiche_moq.Wire.Version.{IsDraft, Version, draft_10, draft_15}
use quiche_moq.Wire.KeyValuePair.{KeyValuePair}
use quiche_moq.Wire.KeyValuePairs
use quiche_moq.Wire.KeyValuePairs.RoundTrip as Pairs
use quiche_moq.Wire.Parameter.{Parameter, into, from}
use quiche_moq.Wire.Parameter
use quiche_moq.Wire.Parameter.RoundTrip.{IsEncodable, from-into}
use quiche_moq.Wire.Parameter.RoundTrip as Single
use quiche_moq.Wire.Parameters.{Parameters, read_from, from_bytes, to_bytes}

-- What a reader makes of the sequence: in order of the types from draft 15 on.
unfoldable pub received : Version → Parameters → Parameters
received version ps =
    if leb version draft_10
    then map (Single.received version) ps
    else if leb draft_15 version
    then sort_by_key (λ p. p.ty) ps
    else ps

pub record AreEncodable (version : Version) (ps : Parameters) : Type 0 where
  pub each : All (IsEncodable version) ps
  pub count : IsVarint (length ps)

pub map-from-into : (ps : Parameters) → map from (map into ps) ≡ ps
map-from-into [] = refl
map-from-into (p ∷ ps) = rw (from-into p, map-from-into ps)

ordered-into :
    (version : Version) (ps : Parameters)
    → draft_10 < version
    → map from (KeyValuePairs.ordered version (map into ps)) ≡ received version ps
unfolding received KeyValuePairs.ordered
ordered-into version ps h = elim (Bool-cases (leb draft_15 version)) [
  | inl e ↦
      rw
        (
          e,
          lt→leb_false draft_10 version h,
          map-sort_by_key (λ (p : Parameter). p.ty) (λ (p : KeyValuePair). p.ty) into ps
              (λ a. unfold into in refl),
        )
        (map-from-into (sort_by_key (λ p. p.ty) ps))
  | inr e ↦ rw (e, lt→leb_false draft_10 version h) (map-from-into ps)
]

pub received_none : (version : Version) → received version [] ≡ []
unfolding received sort_by_key
received_none version = ground arith

received_old :
    (version : Version) (ps : Parameters)
    → version ≤ draft_10
    → received version ps ≡ map (Single.received version) ps
unfolding received
received_old version ps h = rw (le→leb version draft_10 h)

into-AreEncodable :
    (version : Version) (ps : Parameters)
    → draft_10 < version
    → All (IsEncodable version) ps
    → Pairs.AreEncodable (map into ps)
into-AreEncodable version [] h v = tt
into-AreEncodable version (p ∷ ps) h (v, vs) =
    (v.parity (omega arith), into-AreEncodable version ps h vs)

module _ ⦃o : Octets⦄ (version : Version) where
  old_codes :
      (prev_key : ℕ) (ps : Parameters)
      → IsDraft version
      → version ≤ draft_10
      → All (IsEncodable version) ps
      → Codes
          (for_each (Parameter.to_bytes (record { version = version; previous_key = 0 })) ps)
          (read_from version prev_key (length ps))
          (map (Single.received version) ps)
  unfolding for_each read_from Single.received
  old_codes prev_key [] d h v = done []
  old_codes prev_key (p ∷ ps) d h (v, vs) = rw (Single.to_bytes_old version 0 prev_key p d h) (
      seq _
        (Single.codes (record { version = version; previous_key = prev_key }) p d v
          (λ k. absurd (omega arith)))
        (last _ (old_codes p.ty ps d h vs)))

  -- In every draft from 07 to 16, fewer than 2^62 parameters, each of which can be encoded, are
  -- read back as received says: up to draft 10 with every number as its lowest byte, in draft 11 to
  -- 14 unchanged, and from draft 15 on sorted by type, parameters of the same type in their order.
  -- A proper prefix is answered by buffer_too_short.
  pub parameters_codes :
      (ps : Parameters)
      → IsDraft version
      → AreEncodable version ps
      → Codes (to_bytes version ps) (from_bytes version) (received version ps)
  unfolding to_bytes from_bytes
  parameters_codes ps d v =
      seq _ (varint_codes _ v.count) elim (Bool-cases (leb version draft_10)) [
        | inl e ↦
            rw (e, received_old version ps (leb→le _ _ e)) (old_codes 0 ps d (leb→le _ _ e) v.each)
        | inr e ↦ rw e (
            last_as (map from) (ordered-into version ps (leb→lt _ _ e)) (
              rw (← length-map ps into) (
                Pairs.key_value_pairs_codes version (map into ps)
                  (into-AreEncodable version ps (leb→lt _ _ e) v.each))))
      ]
