-- ===== src/Server.antt =====
-- src/relayserver.
pub mod Stored
pub mod Store
pub mod Keys
pub mod Node
pub mod Transactions
pub mod Pending
pub mod Registration
pub mod Relay
pub mod Tests
