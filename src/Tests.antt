-- ===== src/Tests.antt =====
-- Concrete inputs for the theorems, and what the model computes on them.
pub mod Fixtures
pub mod Access
pub mod Registry
pub mod Network
pub mod Policy
pub mod Migration
pub mod Outbox
pub mod Plan
pub mod Snapshot
