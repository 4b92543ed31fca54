-- ===== src/Moq/Error.antt =====
-- quiche_moq/src/error.rs
use quiche_moq.Octets
use quiche_moq.Webtransport

-- The cases that wrap an error of another crate, which the modelled code does not return, are left
-- out.
pub data Error : Type 0 where
  partial_control_message unimplemented done fin insufficient_capacity object_to_long : Error
  unfinished_payload exceeded_payload request_blocked : Error
  wt : Webtransport.Error → Error
  wire : Octets.Error → Error
