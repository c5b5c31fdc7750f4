-- ===== src/Derp/FrameType.antt =====
-- The values of DerpFrameType of include/tailcat/derp.hpp that the program uses.
use tailcat_in_c.Common.{ℕ}

abbrev pub server_key : ℕ
server_key = 0x01

abbrev pub client_info : ℕ
client_info = 0x02

abbrev pub server_info : ℕ
server_info = 0x03

abbrev pub send_packet : ℕ
send_packet = 0x04

abbrev pub recv_packet : ℕ
recv_packet = 0x05

abbrev pub keep_alive : ℕ
keep_alive = 0x06

abbrev pub peer_gone : ℕ
peer_gone = 0x08

abbrev pub peer_present : ℕ
peer_present = 0x09

abbrev pub ping : ℕ
ping = 0x12

abbrev pub pong : ℕ
pong = 0x13

abbrev pub health : ℕ
health = 0x14

abbrev pub restarting : ℕ
restarting = 0x15
