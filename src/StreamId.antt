-- ===== src/StreamId.antt =====
-- quiche_utils/src/stream_id.rs: the bits of a QUIC stream id (RFC 9000 §2.1).
use quiche_moq.Common.{Bool, if◌then◌else◌, ℕ, ◌%◌, ◌/◌, ◌==◌}

-- `(self.0 & 0x2) == 0`
unfoldable pub is_bidi : ℕ → Bool
is_bidi id = id / 2 % 2 == 0

-- `(self.0 & 0x1) == (is_server as u64)`
unfoldable pub is_local : Bool → ℕ → Bool
is_local is_server id = id % 2 == (if is_server then 1 else 0)
