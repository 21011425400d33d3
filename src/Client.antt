-- ===== src/Client.antt =====
-- The relay client.
pub mod Accounts
pub mod Known
pub mod Selection
pub mod Relaying
pub mod Provider
pub mod Enveloping
pub mod Discovery
pub mod Tests
pub mod Validator
