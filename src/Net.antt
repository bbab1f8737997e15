-- ===== src/Net.antt =====
-- src/net: the users of the network.
pub mod DataStream
pub mod NetworkProcessor
pub mod Telemetry
pub mod Users
pub mod Tests
