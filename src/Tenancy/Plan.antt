-- ===== src/Tenancy/Plan.antt =====
-- src/tenancy/plan.rs: the staged migration of the schema, as data that its own rules check.
pub mod Kinds
pub mod Objects
pub mod Schema
pub mod Lookup
pub mod Foreign
pub mod Bridges
pub mod Authorities
pub mod Worklists
pub mod Ownership
