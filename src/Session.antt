-- ===== src/Session.antt =====
-- The durable Network Session record (internal/daemon/network_session_state.go and
-- network_session_continuation.go).
pub mod Model
pub mod Protection
pub mod Validation
pub mod Io
pub mod Plan
pub mod Store
pub mod Integrity
pub mod Durability
