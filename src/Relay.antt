-- ===== src/Relay.antt =====
-- relay/: the connection to the relay server.
pub mod ReplayBuffer
pub mod Protocol
pub mod Actions
pub mod Resend
pub mod Watchdog
