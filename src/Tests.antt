-- ===== src/Tests.antt =====
-- Concrete runs, and the theorems at concrete inputs.
pub mod Fixtures
pub mod Calls
pub mod Transport
pub mod MainThread
pub mod Tooling
pub mod Walks
pub mod Servers
pub mod Episodes
pub mod Types
