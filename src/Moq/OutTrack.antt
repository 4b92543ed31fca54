-- ===== src/Moq/OutTrack.antt =====
-- quiche_moq/src/out_track.rs
use quiche_moq.Common.{Bool, Option, none, true, ℕ}

pub record OutTrack : Type 0 where
  pub current_stream_id : Option ℕ

unfoldable pub new : OutTrack
new = record { current_stream_id = none }

unfoldable pub writable : OutTrack → Bool
writable t = true
