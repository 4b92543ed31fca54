-- ===== src/Moq.antt =====
-- quiche_moq/src: tracks and streams of a session.
pub mod Action
pub mod Error
pub mod InStream
pub mod InTrack
pub mod OutStream
pub mod OutTrack
pub mod Session
mod Tests
