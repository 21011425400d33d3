-- ===== src/Common.antt =====
-- src/common: what server and client share.
pub mod Utils
pub mod Constants
pub mod Hex
pub mod Requests
pub mod Gas
pub mod Interactor
pub mod Events
pub mod Amount
pub mod Tests
pub mod Versions
