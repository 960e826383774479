-- ===== src/Credentials.antt =====
-- src/credentials: who is calling, and which agents the caller may act for.
pub mod Scope
pub mod Cache
pub mod Mode
pub mod Context
pub mod Secret
pub mod Store
pub mod Auth
pub mod Grants
pub mod Settings
