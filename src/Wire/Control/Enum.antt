-- ===== src/Wire/Control/Enum.antt =====
-- quiche_moq_wire/src/control_message/mod.rs: any message of the control stream, by its id.
pub mod RoundTrip
use quiche_moq.Common.{contains, if◌then◌else◌, ℕ}
use quiche_moq.Octets.{M, Octets, Reader, Writer, fails, protocol_violation, pure, ◌>>=◌, ◌>>◌}
use quiche_moq.Octets.Cursor.{peek_varint}
use quiche_moq.Wire.Version.{Version}
use quiche_moq.Wire.Control.Frame.{ControlMessage}
use quiche_moq.Wire.Control.Frame
use quiche_moq.Wire.Control.Subscribe.{SubscribeMessage}
use quiche_moq.Wire.Control.Subscribe
use quiche_moq.Wire.Control.ClientSetup.{ClientSetupMessage}
use quiche_moq.Wire.Control.ClientSetup
use quiche_moq.Wire.Control.ServerSetup.{ServerSetupMessage}
use quiche_moq.Wire.Control.ServerSetup
use quiche_moq.Wire.Control.SubscribeOk.{SubscribeOkMessage}
use quiche_moq.Wire.Control.SubscribeOk
use quiche_moq.Wire.Control.RequestsBlocked.{RequestsBlockedMessage}
use quiche_moq.Wire.Control.RequestsBlocked
use quiche_moq.Wire.Control.PublishDone.{PublishDoneMessage}
use quiche_moq.Wire.Control.PublishDone
use quiche_moq.Wire.Control.RequestError.{RequestErrorMessage}
use quiche_moq.Wire.Control.RequestError
use quiche_moq.Wire.Control.PublishNamespace.{PublishNamespaceMessage}
use quiche_moq.Wire.Control.PublishNamespace
use quiche_moq.Wire.Control.PublishNamespaceDone.{PublishNamespaceDoneMessage}
use quiche_moq.Wire.Control.PublishNamespaceDone
use quiche_moq.Wire.Control.RequestOk.{RequestOkMessage}
use quiche_moq.Wire.Control.RequestOk
use quiche_moq.Wire.Control.UnsubscribeNamespace.{UnsubscribeNamespaceMessage}
use quiche_moq.Wire.Control.UnsubscribeNamespace
use quiche_moq.Wire.Control.TrackStatus.{TrackStatusMessage}
use quiche_moq.Wire.Control.TrackStatus
use quiche_moq.Wire.Control.PublishOk.{PublishOkMessage}
use quiche_moq.Wire.Control.PublishOk

pub data ControlMessageEnum : Type 0 where
  subscribe : SubscribeMessage → ControlMessageEnum
  client_setup : ClientSetupMessage → ControlMessageEnum
  server_setup : ServerSetupMessage → ControlMessageEnum
  subscribe_ok : SubscribeOkMessage → ControlMessageEnum
  requests_blocked : RequestsBlockedMessage → ControlMessageEnum
  publish_done : PublishDoneMessage → ControlMessageEnum
  request_error : RequestErrorMessage → ControlMessageEnum
  publish_namespace : PublishNamespaceMessage → ControlMessageEnum
  publish_namespace_done : PublishNamespaceDoneMessage → ControlMessageEnum
  request_ok : RequestOkMessage → ControlMessageEnum
  unsubscribe_namespace : UnsubscribeNamespaceMessage → ControlMessageEnum
  track_status : TrackStatusMessage → ControlMessageEnum
  publish_ok : PublishOkMessage → ControlMessageEnum

module _ ⦃o : Octets⦄ (version : Version) where
  unfoldable pub to_bytes : ControlMessageEnum → M Writer (Unit {0})
  to_bytes (subscribe m) = Frame.to_bytes Subscribe.message version m
  to_bytes (client_setup m) = Frame.to_bytes ClientSetup.message version m
  to_bytes (server_setup m) = Frame.to_bytes ServerSetup.message version m
  to_bytes (subscribe_ok m) = Frame.to_bytes SubscribeOk.message version m
  to_bytes (requests_blocked m) = Frame.to_bytes RequestsBlocked.message version m
  to_bytes (publish_done m) = Frame.to_bytes PublishDone.message version m
  to_bytes (request_error m) = Frame.to_bytes RequestError.message version m
  to_bytes (publish_namespace m) = Frame.to_bytes PublishNamespace.message version m
  to_bytes (publish_namespace_done m) = Frame.to_bytes PublishNamespaceDone.message version m
  to_bytes (request_ok m) = Frame.to_bytes RequestOk.message version m
  to_bytes (unsubscribe_namespace m) = Frame.to_bytes UnsubscribeNamespace.message version m
  to_bytes (track_status m) = Frame.to_bytes TrackStatus.message version m
  to_bytes (publish_ok m) = Frame.to_bytes PublishOk.message version m

  -- `if <$type>::MESSAGE_IDS.contains(&ty) { return Ok($variant(<$type>::from_bytes(b)?)); }`
  unfoldable pub try :
      {A : Type 0}
      → ControlMessage A
      → (A → ControlMessageEnum)
      → ℕ
      → M Reader ControlMessageEnum
      → M Reader ControlMessageEnum
  try message variant ty otherwise =
      if contains message.message_ids ty
      then (do m ← Frame.from_bytes message version; pure (variant m))
      else otherwise

  unfoldable pub from_id : ℕ → M Reader ControlMessageEnum
  unfolding try
  from_id ty =
      (try Subscribe.message subscribe ty (
        try ClientSetup.message client_setup ty (
          try ServerSetup.message server_setup ty (
            try SubscribeOk.message subscribe_ok ty (
              try RequestsBlocked.message requests_blocked ty (
                try PublishDone.message publish_done ty (
                  try RequestError.message request_error ty (
                    try PublishNamespace.message publish_namespace ty (
                      try PublishNamespaceDone.message publish_namespace_done ty (
                        try RequestOk.message request_ok ty (
                          try UnsubscribeNamespace.message unsubscribe_namespace ty (
                            try TrackStatus.message track_status ty (
                              try PublishOk.message publish_ok ty
                                (fails protocol_violation))))))))))))))

  unfoldable pub from_bytes : M Reader ControlMessageEnum
  unfolding from_id
  from_bytes = do ty ← peek_varint; from_id ty
