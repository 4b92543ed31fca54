-- ===== src/Wire/NamespaceTrackname.antt =====
-- quiche_moq_wire/src/namespace_trackname.rs: the full name of a track.
pub mod Text
use quiche_moq.Wire.Tuple.{Bytes}
use quiche_moq.Wire.Namespace.{Namespace}

pub record NamespaceTrackname : Type 0 where
  pub namespace : Namespace
  pub trackname : Bytes

unfoldable pub new : Namespace → Bytes → NamespaceTrackname
new namespace trackname = record { namespace = namespace; trackname = trackname }
