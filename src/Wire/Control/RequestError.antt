-- ===== src/Wire/Control/RequestError.antt =====
-- quiche_moq_wire/src/control_message/request_error.rs: implemented up to draft 13.
use quiche_moq.Common.{Option, [], arith, if◌then◌else◌, none, some, ℕ, ◌<◌, ◌∷◌, ◌≤◌}
use quiche_moq.Octets.{M, Octets, Reader, Writer, ok, panics, pure, ◌>>=◌, ◌>>◌}
use quiche_moq.Octets.Codec.{Codes, last, put_unwrapped, seq}
use quiche_moq.Octets.Fields.{
  HasVarint, IsAbsent, IsVarint, absent_codes, varint_codes, varint_field,
}
use quiche_moq.Wire.Version.{Version, between, draft_07, draft_11, draft_12, draft_13, ranges}
use quiche_moq.Wire.Control.Frame.{ControlMessage}
use quiche_moq.Wire.ReasonPhrase.{ReasonPhrase}
use quiche_moq.Wire.ReasonPhrase

pub record RequestErrorMessage : Type 0 where
  pub request_id : ℕ
  pub error_code : ℕ
  pub error_reason : ReasonPhrase
  pub track_alias : Option ℕ

pub record IsEncodable (version : Version) (m : RequestErrorMessage) : Type 0 where
  pub request_id_fits : IsVarint m.request_id
  pub error_code_fits : IsVarint m.error_code
  pub reason : ReasonPhrase.IsEncodable m.error_reason
  pub old : version ≤ draft_11 → HasVarint m.track_alias
  pub new : draft_11 < version → IsAbsent m.track_alias

module _ ⦃o : Octets⦄ where
  open o use {get_varint, put_varint}

  unfoldable pub to_body_bytes : Version → RequestErrorMessage → M Writer (Unit {0})
  to_body_bytes version m = do
    put_varint m.request_id
    put_varint m.error_code
    ReasonPhrase.to_bytes m.error_reason
    if between draft_07 draft_11 version
        then put_unwrapped put_varint m.track_alias
        else if between draft_12 draft_13 version
        then pure tt
        else panics

  unfoldable pub get_track_alias : Version → M Reader (Option ℕ)
  get_track_alias version =
      if between draft_07 draft_11 version
      then (do track_alias ← get_varint; pure (some track_alias))
      else if between draft_12 draft_13 version
      then pure none
      else panics

  unfoldable pub from_body_bytes : Version → M Reader RequestErrorMessage
  unfolding get_track_alias
  from_body_bytes version = do
    request_id ← get_varint
    error_code ← get_varint
    error_reason ← ReasonPhrase.from_bytes
    track_alias ← get_track_alias version
    pure (record {
      request_id = request_id;
      error_code = error_code;
      error_reason = error_reason;
      track_alias = track_alias;
    })

  unfoldable pub message : ControlMessage RequestErrorMessage
  message = record {
    message_ids = 0x05 ∷ [];
    message_id_for_version = λ version. ok 0x05;
    to_body_bytes = to_body_bytes;
    from_body_bytes = from_body_bytes;
  }

  pub request_error_codes :
      (version : Version) (m : RequestErrorMessage)
      → draft_07 ≤ version
      → version ≤ draft_13
      → IsEncodable version m
      → Codes (to_body_bytes version m) (from_body_bytes version) m
  unfolding to_body_bytes from_body_bytes get_track_alias
  request_error_codes version m l u v = seq _ (varint_codes _ v.request_id_fits) (
      seq _ (varint_codes _ v.error_code_fits) (
        seq _ (ReasonPhrase.reason_phrase_codes m.error_reason v.reason) (
          last _ (
            ranges draft_07 draft_11 draft_12 draft_13 version l u (omega arith)
              (λ h. varint_field m.track_alias (v.old h))
              (λ h. absent_codes m.track_alias (v.new h))))))
