-- ===== src/Wire/Tests.antt =====
-- The properties of the parts of messages at concrete inputs, over the cursor of Octets.Rfc9000.
use quiche_moq.Common.{All, List, [], arith, length, none, refl, some, ℕ, ◌%◌, ◌∷◌, ◌≡◌}
use quiche_moq.Octets.{ok}
use quiche_moq.Octets.Codec.{Codes}
use quiche_moq.Octets.Fields.{IsVarint}
use quiche_moq.Common.Outcome
use quiche_moq.Wire.NamespaceTrackname.Text.{unescape, write_escape}
use quiche_moq.Wire.NamespaceTrackname.Text.RoundTrip.{unescape-write_escape}
use quiche_moq.Octets.Rfc9000.{rfc9000}
use quiche_moq.Wire.Version.{between, draft_07, draft_11, draft_16}
use quiche_moq.Wire.KeyValuePair.{KeyValuePair, KeyValuePairValue}
use quiche_moq.Wire.KeyValuePairs
use quiche_moq.Wire.KeyValuePairs.RoundTrip.{key_value_pairs_codes}
use quiche_moq.Wire.Parameter.{Parameter, ParameterValue}
use quiche_moq.Wire.Parameter.RoundTrip as ParameterRoundTrip
use quiche_moq.Wire.Parameters
use quiche_moq.Wire.Parameters.RoundTrip.{parameters_codes, received}
use quiche_moq.Wire.SetupParameters.{SetupParameters}
use quiche_moq.Wire.SetupParameters
use quiche_moq.Wire.SetupParameters.Entries.{setup_parameters_codes}
use quiche_moq.Wire.SetupParameters.Entries
use quiche_moq.Wire.Parameter.{new_varint}
use quiche_moq.Wire.Role
use quiche_moq.Wire.Parameter.{into}
use quiche_moq.Wire.Parameter.RoundTrip.{received as received_one}
use quiche_moq.Wire.KeyValuePairs.RoundTrip as PairsRoundTrip
use quiche_moq.Wire.Parameters.RoundTrip as ParametersRoundTrip
use quiche_moq.Wire.Subgroup.{SubgroupHeader}
use quiche_moq.Wire.Subgroup
use quiche_moq.Wire.Subgroup.RoundTrip.{subgroup_codes, new-IsEncodable}

abbrev two_parameters : List Parameter
two_parameters =
    record { ty = 0x22; value = ParameterValue.varint 2 }
    ∷ record { ty = 0x8; value = ParameterValue.varint 10 }
    ∷ []

-- The parameters of `encode_decode_draft07`.
abbrev setup : SetupParameters
setup = record {
  path = none;
  max_request_id = some 100;
  role = some Role.publisher;
  extra_parameters = record { ty = 8; value = ParameterValue.bytes (9 ∷ []) } ∷ [];
}

setup-IsFaithful : Entries.IsFaithful draft_07 setup
unfolding received_one
setup-IsFaithful = record {
  small = λ h n e. rw (← some_eq e) (omega arith);
  role = λ h. absurd (omega arith);
  extra = ((omega arith, refl), tt);
  sorted = λ h. absurd (omega arith);
}
  where
    some_eq : {n : ℕ} → some 100 ≡ some n → 100 ≡ n
    some_eq e = cc e

setup-entries : All (ParameterRoundTrip.IsEncodable draft_07) (SetupParameters.entries setup)
unfolding SetupParameters.entries new_varint
setup-entries = (
  old (omega arith) (omega arith),
  (old (omega arith) (omega arith), (old (omega arith) (omega arith), tt)),
)
  where
    old :
        {p : Parameter}
        → IsVarint p.ty
        → ParameterRoundTrip.Fits p.value
        → ParameterRoundTrip.IsEncodable draft_07 p
    old t f = record { type_fits = t; value_fits = f; parity = λ h. absurd (omega arith) }

setup_parameters_codes_example :
    Codes (SetupParameters.to_bytes draft_07 setup) (SetupParameters.from_bytes draft_07) setup
setup_parameters_codes_example =
    setup_parameters_codes draft_07 setup (omega arith, omega arith) setup-IsFaithful
      (unfold SetupParameters.entries in omega arith) setup-entries

two_encodable : ParametersRoundTrip.AreEncodable draft_16 two_parameters
unfolding into
two_encodable = record {
  each = (
    even 0x22 2 refl (omega arith) (omega arith),
    (even 0x8 10 refl (omega arith) (omega arith), tt),
  );
  count = omega arith;
}
  where
    even :
        (ty v : ℕ)
        → ty % 2 ≡ 0
        → IsVarint ty
        → IsVarint v
        → ParameterRoundTrip.IsEncodable draft_16
            (record { ty = ty; value = ParameterValue.varint v })
    even ty v e t f = record {
      type_fits = t;
      value_fits = f;
      parity = λ h. record { type_fits = t; value_fits = (e, f) };
    }

parameters_codes_example :
    Codes
      (Parameters.to_bytes draft_16 two_parameters)
      (Parameters.from_bytes draft_16)
      (received draft_16 two_parameters)
parameters_codes_example =
    parameters_codes draft_16 two_parameters (omega arith, omega arith) two_encodable

abbrev two_pairs : List KeyValuePair
two_pairs =
    record { ty = 0x21; value = KeyValuePairValue.bytes (1 ∷ 2 ∷ 3 ∷ []) }
    ∷ record { ty = 0x8; value = KeyValuePairValue.varint 10 }
    ∷ []

pairs_encodable : PairsRoundTrip.AreEncodable two_pairs
pairs_encodable = (
  record { type_fits = omega arith; value_fits = (refl, omega arith) },
  (record { type_fits = omega arith; value_fits = (refl, omega arith) }, tt),
)

key_value_pairs_codes_example :
    Codes
      (KeyValuePairs.to_bytes draft_16 two_pairs)
      (KeyValuePairs.from_bytes draft_16 (length two_pairs))
      (KeyValuePairs.ordered draft_16 two_pairs)
key_value_pairs_codes_example = key_value_pairs_codes draft_16 two_pairs pairs_encodable

-- The header of subgroup.rs's `test_encode_decode`.
abbrev header : SubgroupHeader
header = record {
  ty = 0xd;
  track_alias = 1;
  group_id = 2;
  subgroup_id = some 3;
  publisher_priority = 0;
}

header_made : Subgroup.new 1 2 3 draft_11 ≡ ok header
unfolding Subgroup.new between
header_made = refl

subgroup_codes_example :
    Codes (Subgroup.to_bytes draft_11 header) (Subgroup.from_bytes draft_11) header
subgroup_codes_example =
    subgroup_codes draft_11 header (omega arith, omega arith)
      (new-IsEncodable 1 2 3 draft_11 header (omega arith, omega arith) (omega arith) (omega arith)
        (omega arith) header_made)

-- `a.net`
unescape-write_escape_example :
    unescape (write_escape (0x61 ∷ 0x2e ∷ 0x6e ∷ 0x65 ∷ 0x74 ∷ []))
    ≡ Outcome.ok (0x61 ∷ 0x2e ∷ 0x6e ∷ 0x65 ∷ 0x74 ∷ [])
unescape-write_escape_example =
    unescape-write_escape (0x61 ∷ 0x2e ∷ 0x6e ∷ 0x65 ∷ 0x74 ∷ [])
      (omega arith, (omega arith, (omega arith, (omega arith, (omega arith, tt)))))
