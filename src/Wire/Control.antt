-- ===== src/Wire/Control.antt =====
-- quiche_moq_wire/src/control_message/: the messages of the control stream.
mod Tests
pub mod Frame
pub mod RequestsBlocked
pub mod PublishDone
pub mod RequestError
pub mod RequestOk
pub mod PublishNamespace
pub mod PublishNamespaceDone
pub mod PublishOk
pub mod TrackStatus
pub mod UnsubscribeNamespace
pub mod FilterType
pub mod ClientSetup
pub mod ServerSetup
pub mod Subscribe
pub mod SubscribeOk
pub mod Enum
