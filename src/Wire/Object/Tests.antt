-- ===== src/Wire/Object/Tests.antt =====
-- The properties of object headers at a concrete input, over the cursor of Octets.Rfc9000.
use quiche_moq.Common.{List, [], arith, inr, length, none, refl, some, ℕ, ◌∷◌, ◌≡◌}
use quiche_moq.Octets.Codec.{Codes}
use quiche_moq.Octets.Rfc9000.{rfc9000, varint_len}
use quiche_moq.Common.Sorting.{sort_by_key}
use quiche_moq.Wire.Version.{draft_16}
use quiche_moq.Wire.KeyValuePair.{KeyValuePair, KeyValuePairValue}
use quiche_moq.Wire.KeyValuePair
use quiche_moq.Wire.KeyValuePairs
use quiche_moq.Wire.Subgroup.{SubgroupHeader}
use quiche_moq.Wire.Object.{ObjectHeader, from_bytes, to_bytes, get_extensions}
use quiche_moq.Wire.Object.Loop.{Runs, get_extensions-Runs}
use quiche_moq.Wire.Object.RoundTrip.{IsEncodable, object_codes, received}

abbrev subgroup : SubgroupHeader
subgroup = record {
  ty = 0xd;
  track_alias = 1;
  group_id = 2;
  subgroup_id = some 3;
  publisher_priority = 0;
}

abbrev two_headers : List KeyValuePair
two_headers =
    record { ty = 0x21; value = KeyValuePairValue.bytes (1 ∷ 2 ∷ 3 ∷ []) }
    ∷ record { ty = 0x8; value = KeyValuePairValue.varint 10 }
    ∷ []

length_of_two : KeyValuePairs.byte_length draft_16 two_headers ≡ 7
unfolding KeyValuePairs.byte_length KeyValuePairs.length_from KeyValuePairs.ordered
    KeyValuePair.byte_length KeyValuePair.value_length sort_by_key varint_len
length_of_two = refl

abbrev object : ObjectHeader
object = record {
  id = 7;
  subgroup_ty = 0xd;
  extension_headers = two_headers;
  payload_len = 5;
  status = none;
}

object-IsEncodable : IsEncodable draft_16 object
object-IsEncodable = record {
  id_fits = omega arith;
  payload_fits = omega arith;
  kind = inr refl;
  none_old = λ e. absurd (omega (arith, e));
  pairs = (
    record { type_fits = omega arith; value_fits = (refl, omega arith) },
    (record { type_fits = omega arith; value_fits = (refl, omega arith) }, tt),
  );
  length_fits = omega (arith, length_of_two);
  status_empty = λ e. absurd (omega (arith, e));
  status_full = λ e. tt;
}

object_codes_example :
    Codes (to_bytes draft_16 object) (from_bytes draft_16 subgroup) (received draft_16 object)
object_codes_example = object_codes draft_16 object subgroup refl object-IsEncodable

-- A pair of two bytes, and what comes after it.
get_extensions-Runs_example :
    Runs draft_16
      (length {A = ℕ} (0x8 ∷ 10 ∷ 0xff ∷ []))
      2
      0
      (0x8 ∷ 10 ∷ 0xff ∷ [])
      (get_extensions draft_16 2 (0x8 ∷ 10 ∷ 0xff ∷ []))
get_extensions-Runs_example = get_extensions-Runs draft_16 2 (0x8 ∷ 10 ∷ 0xff ∷ [])
