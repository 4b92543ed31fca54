-- ===== src/Wire/KeyValuePairs/RoundTrip.antt =====
use quiche_moq.Common.{All, Bool-cases, [], inl, inr, leb, length, le→leb, ℕ, ◌∷◌, ◌≡◌, ◌≤◌}
use quiche_moq.Common.Sorting.{
  IsSortedFrom, sort_by_key-IsSortedFrom, length-sort_by_key, sort_by_key-All,
}
use quiche_moq.Octets.{Octets}
use quiche_moq.Octets.Codec.{Codes, done, last, seq}
use quiche_moq.Wire.Version.{Version, draft_15}
use quiche_moq.Wire.KeyValuePair.RoundTrip.{IsEncodable}
use quiche_moq.Wire.KeyValuePair.RoundTrip
use quiche_moq.Wire.KeyValuePairs.{
  KeyValuePairs, ordered, context, read_from, from_bytes, write_from, to_bytes,
}

abbrev pub AreEncodable : KeyValuePairs → Type 0
AreEncodable = All IsEncodable

abbrev pub IsOrdered : Version → ℕ → KeyValuePairs → Type 0
IsOrdered version prev_key ps = draft_15 ≤ version → IsSortedFrom (λ p. p.ty) prev_key ps

pub ordered-IsOrdered :
    (version : Version) (ps : KeyValuePairs) → IsOrdered version 0 (ordered version ps)
unfolding ordered
ordered-IsOrdered version ps h =
    rw (le→leb draft_15 version h) (sort_by_key-IsSortedFrom (λ p. p.ty) ps)

pub length-ordered :
    (version : Version) (ps : KeyValuePairs) → length (ordered version ps) ≡ length ps
unfolding ordered
length-ordered version ps = elim (Bool-cases (leb draft_15 version)) [
  | inl e ↦ rw e (length-sort_by_key (λ p. p.ty) ps)
  | inr e ↦ rw e
]

pub ordered-AreEncodable :
    (version : Version) (ps : KeyValuePairs) → AreEncodable ps → AreEncodable (ordered version ps)
unfolding ordered
ordered-AreEncodable version ps v = elim (Bool-cases (leb draft_15 version)) [
  | inl e ↦ rw e (sort_by_key-All (λ p. p.ty) IsEncodable ps v)
  | inr e ↦ rw e v
]

module _ ⦃o : Octets⦄ (version : Version) where
  codes_from :
      (prev_key : ℕ) (ps : KeyValuePairs)
      → AreEncodable ps
      → IsOrdered version prev_key ps
      → Codes (write_from version prev_key ps) (read_from version prev_key (length ps)) ps
  unfolding write_from read_from
  codes_from prev_key [] v s = done []
  codes_from prev_key (p ∷ ps) (v, vs) s =
      seq _ (RoundTrip.codes (context version prev_key) p v (λ h. (s h).0))
        (last (λ l. p ∷ l) (codes_from p.ty ps vs (λ h. (s h).1)))

  -- In every version, pairs whose types fit a varint and whose values have the kind that the parity
  -- of the type asks for are read back, when their number is given, in the order in which they are
  -- written: sorted by type from draft 15 on, where each type is written as the difference to the
  -- one before, and as they stand before draft 15. A proper prefix is answered by buffer_too_short.
  pub key_value_pairs_codes :
      (ps : KeyValuePairs)
      → AreEncodable ps
      → Codes (to_bytes version ps) (from_bytes version (length ps)) (ordered version ps)
  unfolding to_bytes from_bytes
  key_value_pairs_codes ps v = rw (← length-ordered version ps) (
      codes_from 0 (ordered version ps) (ordered-AreEncodable version ps v)
        (ordered-IsOrdered version ps))
