-- ===== src/Tenancy/Audit.antt =====
-- src/tenancy/audit.rs: the readiness audit of the tenancy migration.
pub mod Codes
pub mod Registry
pub mod Identifiers
pub mod Tokens
pub mod Preimage
pub mod Findings
pub mod Relationships
pub mod Readiness
pub mod Contracts
pub mod Paths
pub mod Snapshot
pub mod Verdicts
pub mod Consistency
pub mod Checks
pub mod Columns
pub mod Shapes
pub mod Structure
pub mod Evaluated
pub mod Prechecks
