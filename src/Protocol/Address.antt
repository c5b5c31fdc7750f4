-- ===== src/Protocol/Address.antt =====
-- The `tc...` addresses of src/protocol.cpp.
pub mod Parse
pub mod Encode
pub mod RoundTrip
pub mod Total
pub mod Accepts
