-- ===== src/Diag.antt =====
-- The classifier of the TUN diagnostics (internal/tundiag).
pub mod Model
pub mod Names
pub mod Quorum
pub mod Verdict
pub mod Soundness
