-- ===== src/Wire/Control/ClientSetup.antt =====
-- quiche_moq_wire/src/control_message/client_setup.rs
use quiche_moq.Common.{All, List, [], arith, if◌then◌else◌, length, ℕ, ◌*◌, ◌<◌, ◌^◌, ◌∷◌}
use quiche_moq.Octets.{
  M, Octets, Reader, Result, Writer, ok, panic, pure, with_capacity, ◌>>=◌, ◌>>◌,
}
use quiche_moq.Octets.Codec.{Codes, for_each, last, repeat, reserve, seq, times}
use quiche_moq.Octets.Fields.{IsVarint, varint_codes}
use quiche_moq.Wire.Version.{IsDraft, Version, between, draft_07, draft_10, draft_11, draft_16}
use quiche_moq.Wire.Control.Frame.{ControlMessage}
use quiche_moq.Wire.Parameter.RoundTrip.{IsEncodable}
use quiche_moq.Wire.SetupParameters.{SetupParameters, entries}
use quiche_moq.Wire.SetupParameters
use quiche_moq.Wire.SetupParameters.Entries.{IsFaithful}
use quiche_moq.Wire.SetupParameters.Entries

pub record ClientSetupMessage : Type 0 where
  pub supported_versions : List Version
  pub setup_parameters : SetupParameters

pub record IsSent (version : Version) (m : ClientSetupMessage) : Type 0 where
  pub versions : All IsVarint m.supported_versions
  pub count : 8 * length m.supported_versions < 2 ^ 63
  pub faithful : IsFaithful version m.setup_parameters
  pub entry_count : IsVarint (length (entries m.setup_parameters))
  pub each : All (IsEncodable version) (entries m.setup_parameters)

module _ ⦃o : Octets⦄ where
  open o use {get_varint, put_varint}

  unfoldable pub to_body_bytes : Version → ClientSetupMessage → M Writer (Unit {0})
  to_body_bytes version m = do
    put_varint (length m.supported_versions)
    for_each put_varint m.supported_versions
    SetupParameters.to_bytes version m.setup_parameters

  -- A `Version` takes 8 bytes.
  unfoldable pub from_body_bytes : Version → M Reader ClientSetupMessage
  from_body_bytes version = do
    num_supported_versions ← get_varint
    with_capacity 8 num_supported_versions
    supported_versions ← times num_supported_versions get_varint
    setup_parameters ← SetupParameters.from_bytes version
    pure (record { supported_versions = supported_versions; setup_parameters = setup_parameters })

  unfoldable pub message_id_for_version : Version → Result ℕ
  message_id_for_version version =
      if between draft_07 draft_10 version
      then ok 0x40
      else if between draft_11 draft_16 version
      then ok 0x20
      else panic

  unfoldable pub message : ControlMessage ClientSetupMessage
  unfolding message_id_for_version
  message = record {
    message_ids = 0x40 ∷ 0x20 ∷ [];
    message_id_for_version = message_id_for_version;
    to_body_bytes = to_body_bytes;
    from_body_bytes = from_body_bytes;
  }

  versions_codes :
      (vs : List Version) → All IsVarint vs → All (λ v. Codes (put_varint v) get_varint v) vs
  versions_codes [] h = tt
  versions_codes (v ∷ vs) (h, hs) = (varint_codes v h, versions_codes vs hs)

  pub client_setup_codes :
      (version : Version) (m : ClientSetupMessage)
      → IsDraft version
      → IsSent version m
      → Codes (to_body_bytes version m) (from_body_bytes version) m
  unfolding to_body_bytes from_body_bytes
  client_setup_codes version m d v =
      seq _ (varint_codes (length m.supported_versions) (omega (arith, v.count))) (
        reserve 8 _ v.count (
          seq _ (repeat put_varint get_varint _ (versions_codes _ v.versions)) (
            last _ (
              Entries.setup_parameters_codes version m.setup_parameters d v.faithful v.entry_count
                v.each))))
