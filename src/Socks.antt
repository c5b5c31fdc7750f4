-- ===== src/Socks.antt =====
-- src/socks_command.cpp: the SOCKS5 proxy in front of a tunnel.
pub mod Host
pub mod Handshake
pub mod Proxy
