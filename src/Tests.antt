-- ===== src/Tests.antt =====
-- Runs of the definitions and theorems on concrete inputs.
pub mod Protocol
pub mod Derp
pub mod Server
pub mod Rendezvous
pub mod Proxy
pub mod Tunnel
pub mod Relay
pub mod Names
pub mod Stored
pub mod Cli
