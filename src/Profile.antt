-- ===== src/Profile.antt =====
-- The profiles of a user (internal/profile).
pub mod Model
pub mod Host
pub mod Validation
pub mod Selector
pub mod Changes
pub mod Store
pub mod Resolution
pub mod Integrity
pub mod Refinement
pub mod Accounting
pub mod Outcomes
pub mod DisplayName
