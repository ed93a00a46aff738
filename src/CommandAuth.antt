-- ===== src/CommandAuth.antt =====
-- relay/command_auth.rs: signed commands from the relay.
pub mod Canonical
pub mod Envelope
pub mod Nonces
pub mod Verify
pub mod Samples
mod Tests
