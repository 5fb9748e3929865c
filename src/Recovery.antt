-- ===== src/Recovery.antt =====
-- Recovery of the host after a crash (internal/recovery): which cleanup a stored transaction
-- authorizes, and the cleanup itself.
pub mod Text
pub mod Model
pub mod Owners
pub mod Counters
pub mod Keys
pub mod Raw
pub mod Metadata
pub mod Nftables
pub mod Deletes
pub mod Phases
pub mod Links
pub mod Cleanup
pub mod Legacy
pub mod Allocation
pub mod Exact
pub mod Allocated
pub mod Dispatch
pub mod Keeping
pub mod Authority
pub mod Steps
pub mod Loops
pub mod Runs
pub mod SessionRuns
pub mod Safety
pub mod Conclusions
pub mod Order
pub mod Numbers
pub mod Rules
