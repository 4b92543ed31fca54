-- ===== src/Wire/Control/ServerSetup.antt =====
-- quiche_moq_wire/src/control_message/server_setup.rs: `b.get_varint().unwrap()` panics for a body
-- that is not there yet.
use quiche_moq.Common.{All, Cut, List, [], append_assoc, if◌then◌else◌, length, ℕ, ◌++◌, ◌∷◌, ◌≡◌}
use quiche_moq.Octets.{M, Octets, Reader, Result, Writer, emit, err, ok, panic, pure, ◌>>=◌, ◌>>◌}
use quiche_moq.Octets.Codec.{Codes, emit-append}
use quiche_moq.Octets.Fields.{IsVarint}
use mathlib.Core.Path.{fun_ext}
use quiche_moq.Wire.Version.{IsDraft, Version, between, draft_07, draft_10, draft_11, draft_16}
use quiche_moq.Wire.Control.Frame.{ControlMessage}
use quiche_moq.Wire.Parameter.RoundTrip.{IsEncodable}
use quiche_moq.Wire.SetupParameters.{SetupParameters, entries}
use quiche_moq.Wire.SetupParameters
use quiche_moq.Wire.SetupParameters.Entries.{IsFaithful}
use quiche_moq.Wire.SetupParameters.Entries

pub record ServerSetupMessage : Type 0 where
  pub selected_version : Version
  pub setup_parameters : SetupParameters

pub record IsSent (version : Version) (m : ServerSetupMessage) : Type 0 where
  pub selected : IsVarint m.selected_version
  pub faithful : IsFaithful version m.setup_parameters
  pub entry_count : IsVarint (length (entries m.setup_parameters))
  pub each : All (IsEncodable version) (entries m.setup_parameters)

-- `Result::unwrap`
unfoldable pub unwrapped : {A : Type 0} → Result A → Result A
unwrapped (ok a) = ok a
unwrapped (err e) = panic
unwrapped panic = panic

unfoldable pub unwrap : {S A : Type 0} → M S A → M S A
unfolding unwrapped
unwrap m s = unwrapped (m s)

module _ ⦃o : Octets⦄ where
  unfoldable pub to_body_bytes : Version → ServerSetupMessage → M Writer (Unit {0})
  to_body_bytes version m = do
    o.put_varint m.selected_version
    SetupParameters.to_bytes version m.setup_parameters

  unfoldable pub from_body_bytes : Version → M Reader ServerSetupMessage
  unfolding unwrap
  from_body_bytes version = do
    selected_version ← unwrap o.get_varint
    setup_parameters ← SetupParameters.from_bytes version
    pure (record { selected_version = selected_version; setup_parameters = setup_parameters })

  unfoldable pub message_id_for_version : Version → Result ℕ
  message_id_for_version version =
      if between draft_07 draft_10 version
      then ok 0x41
      else if between draft_11 draft_16 version
      then ok 0x21
      else panic

  unfoldable pub message : ControlMessage ServerSetupMessage
  unfolding message_id_for_version
  message = record {
    message_ids = 0x41 ∷ 0x21 ∷ [];
    message_id_for_version = message_id_for_version;
    to_body_bytes = to_body_bytes;
    from_body_bytes = from_body_bytes;
  }

  -- What is written is read back. A reader that has only a proper prefix of the number in front
  -- panics, one that has the number but not all of the parameters asks for more.
  pub reads_back :
      (version : Version) (m : ServerSetupMessage) (r : Reader)
      → IsDraft version
      → IsSent version m
      → (bs : List ℕ) × ((w : Writer) → to_body_bytes version m w ≡ emit bs w)
        × (from_body_bytes version (bs ++ r) ≡ ok (m, r))
  unfolding to_body_bytes from_body_bytes unwrap ◌>>=◌ ◌>>◌
  reads_back version m r d v =
      let p =
        Entries.setup_parameters_codes version m.setup_parameters d v.faithful v.entry_count
          v.each in
      (
        o.varint m.selected_version ++ p.bytes,
        λ w. written p w,
        rw (
          append_assoc (o.varint m.selected_version) p.bytes r,
          o.get_varint_lem m.selected_version (p.bytes ++ r) v.selected,
          p.gets r,
        ),
      )
    where
      written :
          (p : Codes
            (SetupParameters.to_bytes version m.setup_parameters)
            (SetupParameters.from_bytes version)
            m.setup_parameters)
          (w : Writer)
          → (o.put_varint m.selected_version >> SetupParameters.to_bytes version m.setup_parameters)
              w
            ≡ emit (o.varint m.selected_version ++ p.bytes) w
      written p w = rw (
        emit-append (o.varint m.selected_version) p.bytes w,
        o.put_varint_lem m.selected_version w v.selected,
        fun_ext p.puts,
      )

  -- A proper prefix of the bytes of a number below 2^62 makes from_body_bytes of SERVER_SETUP
  -- panic, in every version, instead of answering buffer_too_short.
  pub from_body_bytes-Cut :
      (version : Version) (v : ℕ) (r : Reader)
      → IsVarint v
      → Cut r (o.varint v)
      → from_body_bytes version r ≡ panic
  unfolding from_body_bytes unwrap ◌>>=◌
  from_body_bytes-Cut version v r h c = rw (o.get_varint-Cut v r h c)
