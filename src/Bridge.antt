-- ===== src/Bridge.antt =====
-- bridging/: the relay from the Fabric contract to the token on Ethereum.
pub mod Oracle
pub mod Services
pub mod Relay
pub mod Nft
pub mod Queue
