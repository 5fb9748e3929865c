-- ===== src/Tests.antt =====
-- Runs of the model, and the properties at concrete inputs.
mod Session
mod Transaction
mod Journal
mod Planner
mod Diag
mod Lock
mod Profile
mod Subscription
mod DisplayName
mod Recovery
