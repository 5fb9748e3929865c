-- ===== src/Lock.antt =====
-- The lock that orders the operations on the lifecycle
-- (internal/daemon/lifecycle_operation_lock.go).
pub mod Core
pub mod System
pub mod Safety
