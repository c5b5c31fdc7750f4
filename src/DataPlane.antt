-- ===== src/DataPlane.antt =====
-- src/data_plane.cpp: the two ends of the tunnel, between the relay, WireGuard and the IP stack.
pub mod Parts
pub mod Server
pub mod InnerPacket
