-- ===== src/Planner.antt =====
-- The plan of a TUN session (internal/network/planner).
pub mod Evidence
pub mod Search
pub mod Allocation
pub mod Freedom
pub mod Failure
