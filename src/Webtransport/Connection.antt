-- ===== src/Webtransport/Connection.antt =====
-- quiche_webtransport/src/connection.rs: the sessions and streams of an HTTP/3 connection.
pub mod Client
pub mod Headers
pub mod Poll
pub mod Receives
pub mod Sends
pub mod Sessions
pub mod Streams
use quiche_moq.Common.{Bool, [], false, if◌then◌else◌, ℕ}
use quiche_moq.Common.Map.{Map}
use quiche_moq.Common.Outcome.{Outcome}
use quiche_moq.Webtransport.{Error}
use quiche_moq.Webtransport.Stream.{Stream}

-- session.rs
pub data State : Type 0 where
  pending http_error established : State

-- pending_request.rs, pending_response.rs
pub record PendingRequest : Type 0 where
  pub session_id : ℕ

unfoldable pub pending_request : PendingRequest
pending_request = record { session_id = 0 }

pub record PendingResponse : Type 0 where
  pub session_id : ℕ

pub data Perspective : Type 0 where
  client : (pending_requests : Map PendingRequest) → Perspective
  server : (pending_responds : Map PendingResponse) → Perspective

pub record Connection : Type 0 where
  pub sessions : Map State
  pub streams : Map Stream
  pub closed : Bool
  pub perspective : Perspective

unfoldable pub new : Bool → Connection
new is_server = record {
  sessions = [];
  streams = [];
  closed = false;
  perspective = if is_server then server [] else client [];
}

-- The connection, the state of the others and the result.
abbrev pub Did : Type 0 → Type 0 → Type 0
Did S A = (Connection × S) × Outcome Error A
