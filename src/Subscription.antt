-- ===== src/Subscription.antt =====
-- Subscriptions: where profiles are fetched from (internal/sub).
pub mod Model
pub mod Store
pub mod Home
pub mod Workflow
pub mod Refinement
pub mod Rollback
pub mod Linking
pub mod Deletion
