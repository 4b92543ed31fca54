-- ===== src/Wire/SetupParameters/RoundTrip.antt =====
-- Setup parameters are read from what is written for a sequence of parameters.
use quiche_moq.Common.{
  All, Bool-cases, [], arith, if◌then◌else◌, inl, inr, leb, leb→le, leb→lt, length, lt→leb_false,
  map, refl, ℕ, ◌<◌, ◌∷◌, ◌≡◌, ◌≤◌,
}
use quiche_moq.Common.Sorting.{
  IsSortedFrom, sort_by_key, sort_by_key-All, sort_by_key-IsSortedFrom, length-sort_by_key,
  map-sort_by_key,
}
use quiche_moq.Octets.{M, Octets, Writer, ok, pure, ◌>>◌}
use quiche_moq.Octets.Codec.{Codes, done, for_each, read_lift, seq}
use quiche_moq.Octets.Fields.{IsVarint, varint_codes}
use quiche_moq.Wire.Version.{
  IsDraft, Version, between-false, between-true, draft_07, draft_10, draft_11, draft_15, draft_16,
}
use quiche_moq.Wire.KeyValuePair.{KeyValuePair}
use quiche_moq.Wire.KeyValuePairs
use quiche_moq.Wire.Parameter.{Parameter, into}
use quiche_moq.Wire.Parameter
use quiche_moq.Wire.Parameter.RoundTrip.{IsEncodable}
use quiche_moq.Wire.Parameter.RoundTrip as Single
use quiche_moq.Wire.Parameters.{Parameters}
use quiche_moq.Wire.Parameters
use quiche_moq.Wire.SetupParameters.{SetupParameters, empty, from_bytes, read_from}
use quiche_moq.Wire.SetupParameters.Collect.{collect, collect_cons}

-- The order on the wire.
unfoldable pub ordered : Version → Parameters → Parameters
ordered version ps = if leb draft_15 version then sort_by_key (λ p. p.ty) ps else ps

abbrev IsOrdered : Version → ℕ → Parameters → Type 0
IsOrdered version prev_key ps = draft_15 ≤ version → IsSortedFrom (λ p. p.ty) prev_key ps

ordered-facts :
    (version : Version) (ps : Parameters)
    → All (IsEncodable version) ps
    → IsOrdered version 0 (ordered version ps)
      × (length (ordered version ps) ≡ length ps)
      × All (IsEncodable version) (ordered version ps)
unfolding ordered
ordered-facts version ps v = elim (Bool-cases (leb draft_15 version)) [
  | inl e ↦ rw e (
    (λ h. sort_by_key-IsSortedFrom (λ p. p.ty) ps),
    length-sort_by_key (λ p. p.ty) ps,
    sort_by_key-All (λ p. p.ty) (IsEncodable version) ps v,
  )
  | inr e ↦ rw e ((λ h. absurd (omega (arith, leb→lt _ _ e))), refl, v)
]

ordered_old : (version : Version) (ps : Parameters) → version ≤ draft_10 → ordered version ps ≡ ps
unfolding ordered
ordered_old version ps h = rw (lt→leb_false version draft_15 (omega arith))

ordered-into :
    (version : Version) (ps : Parameters)
    → KeyValuePairs.ordered version (map into ps) ≡ map into (ordered version ps)
unfolding ordered KeyValuePairs.ordered
ordered-into version ps = elim (Bool-cases (leb draft_15 version)) [
  | inl e ↦ rw e (
      map-sort_by_key (λ (p : Parameter). p.ty) (λ (p : KeyValuePair). p.ty) into ps
        (λ a. unfold into in refl))
  | inr e ↦ rw e
]

module _ ⦃o : Octets⦄ (version : Version) where
  -- Each parameter in the context of the one before.
  unfoldable write_chain : ℕ → Parameters → M Writer (Unit {0})
  write_chain prev_key [] = pure tt
  write_chain prev_key (p ∷ ps) = do
    Parameter.to_bytes (record { version = version; previous_key = prev_key }) p
    write_chain p.ty ps

  chain_old :
      (prev_key : ℕ) (ps : Parameters)
      → IsDraft version
      → version ≤ draft_10
      → for_each (Parameter.to_bytes (record { version = version; previous_key = 0 })) ps
        ≡ write_chain prev_key ps
  unfolding write_chain for_each
  chain_old prev_key [] d h = refl
  chain_old prev_key (p ∷ ps) d h =
      rw (chain_old p.ty ps d h, Single.to_bytes_old version 0 prev_key p d h)

  chain_new :
      (prev_key : ℕ) (ps : Parameters)
      → IsDraft version
      → draft_10 < version
      → KeyValuePairs.write_from version prev_key (map into ps) ≡ write_chain prev_key ps
  unfolding write_chain KeyValuePairs.write_from Parameter.to_bytes
  chain_new prev_key [] d h = refl
  chain_new prev_key (p ∷ ps) d h =
      rw
        (
          between-false draft_07 draft_10 version h,
          between-true draft_11 draft_16 version (omega arith) d.1,
          ← chain_new p.ty ps d h,
        )
        (unfold into in refl)

  ok_eq : (s s' : SetupParameters) → ok s ≡ ok s' → s ≡ s'
  ok_eq s s' e = cc e

  chain_codes :
      (prev_key : ℕ) (s s' : SetupParameters) (ps : Parameters)
      → IsDraft version
      → All (IsEncodable version) ps
      → IsOrdered version prev_key ps
      → collect version s (map (Single.received version) ps) ≡ ok s'
      → Codes (write_chain prev_key ps) (read_from version prev_key s (length ps)) s'
  unfolding write_chain read_from collect Single.received
  chain_codes prev_key s s' [] d v i c = rw (← ok_eq s s' c) (done s)
  chain_codes prev_key s s' (p ∷ ps) d (v, vs) i c =
      let (t, e, rest) =
        collect_cons version s s' (Single.received version p) (map (Single.received version) ps)
          c in
      seq _
        (Single.codes (record { version = version; previous_key = prev_key }) p d v (λ h. (i h).0))
        (read_lift _ _ e (chain_codes p.ty t s' ps d vs (λ h. (i h).1) rest))

  -- If the parameters, in the order in which they arrive, make `s`, then `s` is what is read.
  pub codes_of_collected :
      (ps : Parameters) (s : SetupParameters)
      → IsDraft version
      → IsVarint (length ps)
      → All (IsEncodable version) ps
      → collect version empty (map (Single.received version) (ordered version ps)) ≡ ok s
      → Codes (Parameters.to_bytes version ps) (from_bytes version) s
  unfolding from_bytes Parameters.to_bytes KeyValuePairs.to_bytes
  codes_of_collected ps s d n v c =
      seq _ (varint_codes _ n) elim (Bool-cases (leb version draft_10)) [
        | inl e ↦ rw (e, chain_old 0 ps d (leb→le _ _ e)) (arrive_old (leb→le _ _ e))
        | inr e ↦
            rw (e, ordered-into version ps, chain_new 0 (ordered version ps) d (leb→lt _ _ e))
              arrive
      ]
    where
      facts :
          IsOrdered version 0 (ordered version ps)
          × (length (ordered version ps) ≡ length ps)
          × All (IsEncodable version) (ordered version ps)
      facts = ordered-facts version ps v

      arrive : Codes (write_chain 0 (ordered version ps)) (read_from version 0 empty (length ps)) s
      arrive = rw (← facts.1) (chain_codes 0 empty s (ordered version ps) d facts.2 facts.0 c)

      arrive_old :
          version ≤ draft_10 → Codes (write_chain 0 ps) (read_from version 0 empty (length ps)) s
      arrive_old h = rw (ordered_old version ps h) at arrive
