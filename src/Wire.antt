-- ===== src/Wire.antt =====
-- quiche_moq_wire: the messages of MoQ and their bytes in each draft of the protocol.
pub mod Version
pub mod Tuple
pub mod KeyValuePair
pub mod KeyValuePairs
pub mod Parameter
pub mod Parameters
pub mod Role
pub mod Location
pub mod ReasonPhrase
pub mod SetupParameters
pub mod Namespace
pub mod NamespaceTrackname
mod Tests
pub mod Control
pub mod Subgroup
pub mod Object
