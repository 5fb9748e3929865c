-- ===== src/Transaction.antt =====
-- The transaction journal of the daemon (internal/state/transaction.go).
pub mod Model
pub mod Lifecycle
pub mod Paths
pub mod Secrets
pub mod Validation
pub mod Journal
