-- ===== src/Protocol.antt =====
-- src/protocol.cpp: the `tc...` address format and the MEOW packets.
pub mod Base64
pub mod Cbor
pub mod Types
pub mod Address
pub mod Meow
