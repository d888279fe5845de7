-- ===== src/Updates/Differences.antt =====
-- packages/updates/src/differences.ts: compareContractSnapshots.
pub mod Facts
pub mod Canonical
pub mod Projection
pub mod Endpoints
pub mod Drafts
pub mod Labels
pub mod Members
pub mod Conditions
pub mod Claims
pub mod ClaimDrafts
pub mod Paths
pub mod Checks
pub mod Snapshots
pub mod Analysis
pub mod Compare
pub mod Continuous
pub mod Same
pub mod Absence
pub mod Coverage
pub mod Cancelled
pub mod Itself
pub mod Relaxed
pub mod Replaced
pub mod Keys
pub mod Detected
