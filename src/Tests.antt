-- ===== src/Tests.antt =====
-- Runs of the theorems at concrete inputs, over small stand-ins for what is outside the repository.
pub mod Fixtures
pub mod Boards
pub mod Cards
pub mod Hosts
pub mod Passing
pub mod Platform
pub mod Protocol
pub mod Provisions
pub mod Selftests
pub mod Serving
pub mod Storage
