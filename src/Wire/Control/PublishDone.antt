-- ===== src/Wire/Control/PublishDone.antt =====
-- quiche_moq_wire/src/control_message/publish_done.rs
use quiche_moq.Common.{[], ℕ, ◌∷◌}
use quiche_moq.Octets.{M, Octets, Reader, Writer, ok, pure, ◌>>=◌, ◌>>◌}
use quiche_moq.Octets.Codec.{Codes, last, seq}
use quiche_moq.Octets.Fields.{IsVarint, varint_codes}
use quiche_moq.Wire.Version.{Version}
use quiche_moq.Wire.Control.Frame.{ControlMessage}
use quiche_moq.Wire.ReasonPhrase.{ReasonPhrase}
use quiche_moq.Wire.ReasonPhrase

pub record PublishDoneMessage : Type 0 where
  pub request_id : ℕ
  pub status_code : ℕ
  pub stream_count : ℕ
  pub error_reason : ReasonPhrase

unfoldable pub new : ℕ → ℕ → PublishDoneMessage
new request_id status_code = record {
  request_id = request_id;
  status_code = status_code;
  stream_count = 0;
  error_reason = [];
}

pub record IsEncodable (m : PublishDoneMessage) : Type 0 where
  pub request_id_fits : IsVarint m.request_id
  pub status_code_fits : IsVarint m.status_code
  pub stream_count_fits : IsVarint m.stream_count
  pub reason : ReasonPhrase.IsEncodable m.error_reason

module _ ⦃o : Octets⦄ where
  open o use {get_varint, put_varint}

  unfoldable pub to_body_bytes : Version → PublishDoneMessage → M Writer (Unit {0})
  to_body_bytes version m = do
    put_varint m.request_id
    put_varint m.status_code
    put_varint m.stream_count
    ReasonPhrase.to_bytes m.error_reason

  unfoldable pub from_body_bytes : Version → M Reader PublishDoneMessage
  from_body_bytes version = do
    request_id ← get_varint
    status_code ← get_varint
    stream_count ← get_varint
    error_reason ← ReasonPhrase.from_bytes
    pure (record {
      request_id = request_id;
      status_code = status_code;
      stream_count = stream_count;
      error_reason = error_reason;
    })

  unfoldable pub message : ControlMessage PublishDoneMessage
  message = record {
    message_ids = 0x0b ∷ [];
    message_id_for_version = λ version. ok 0x0b;
    to_body_bytes = to_body_bytes;
    from_body_bytes = from_body_bytes;
  }

  pub codes :
      (version : Version) (m : PublishDoneMessage)
      → IsEncodable m
      → Codes (to_body_bytes version m) (from_body_bytes version) m
  unfolding to_body_bytes from_body_bytes
  codes version m v = seq _ (varint_codes _ v.request_id_fits) (
      seq _ (varint_codes _ v.status_code_fits) (
        seq _ (varint_codes _ v.stream_count_fits)
          (last _ (ReasonPhrase.reason_phrase_codes m.error_reason v.reason))))
