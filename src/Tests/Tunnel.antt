-- ===== src/Tests/Tunnel.antt =====
-- A tunnel to a peer, with an engine that echoes.
use tailcat_in_c.Common.{arith, ℕ, suc, ◌≡◌, refl, true, [], ◌∷◌, ◌++◌, some, Bytes, replicate, ok}
use tailcat_in_c.Protocol.Types.{Key32, zero_key}
use tailcat_in_c.Protocol.Cbor.Int64.{pos}
use tailcat_in_c.Derp.Client.{parse_derp_recv_packet}
use tailcat_in_c.Derp.Transport.{DerpTransport, receive_for}
use tailcat_in_c.DataPlane.Parts.{WireGuardPeerEngine}
use tailcat_in_c.DataPlane.InnerPacket.{IsIpPacket, version_6, plaintext_ip, plaintext_ip-padded}
use tailcat_in_c.WireGuardDerp.{Tunnel, connect, pump_for, send_ip_packet}
use tailcat_in_c.WireGuardDerp.Sends.{OnlyTo, operations-OnlyTo}

abbrev peer_key : Key32
peer_key = replicate 32 4

abbrev other_key : Key32
other_key = replicate 32 8

abbrev echoing : WireGuardPeerEngine ℕ
echoing = record {
  create = λ _ _. ok 0;
  create_handshake_initiation = λ n. (ok (1 ∷ []), suc n);
  handle_packet = λ packet n.
      (record { outbound = packet; plaintext_ip = some packet; session_established = true }, suc n);
  encrypt_ip_packet = λ packet n. (ok packet, suc n);
  session_established = λ _. true;
}

abbrev talking : DerpTransport
talking = record {
  sends = λ _. ok tt;
  receives = λ _. ok (some (record { type = 5; payload = peer_key ++ (7 ∷ []) }));
}

abbrev idle_tunnel : Tunnel ℕ
idle_tunnel = record { wireguard = 0; calls = receive_for 1 ∷ []; readings = 0 }

operations-OnlyTo_example :
    OnlyTo peer_key ((connect talking echoing (λ n. n) suc peer_key (pos 4) idle_tunnel).1).calls
    × OnlyTo peer_key ((pump_for talking echoing (λ n. n) suc peer_key (pos 4) idle_tunnel).1).calls
    × OnlyTo peer_key
        ((send_ip_packet talking echoing (λ n. n) suc peer_key (3 ∷ []) idle_tunnel).1).calls
operations-OnlyTo_example =
    operations-OnlyTo talking echoing (λ n. n) suc peer_key idle_tunnel (pos 4) (3 ∷ []) tt

foreign_run : parse_derp_recv_packet (other_key ++ (7 ∷ [])) zero_key [] ≡ (true, other_key, 7 ∷ [])
unfolding parse_derp_recv_packet
foreign_run = refl

-- An IPv6 packet with a payload of two bytes.
abbrev ipv6_packet : Bytes
ipv6_packet = 0x60 ∷ 0 ∷ 0 ∷ 0 ∷ 0 ∷ 2 ∷ replicate 34 1 ++ (8 ∷ 9 ∷ [])

ipv6_packet-IsIpPacket : IsIpPacket ipv6_packet
ipv6_packet-IsIpPacket =
    version_6 0 0 0 0 0 2 _ (omega arith) (omega arith) (omega arith) (omega arith) refl

plaintext_ip-padded_example : plaintext_ip (ipv6_packet ++ replicate 6 0) ≡ some ipv6_packet
plaintext_ip-padded_example = plaintext_ip-padded ipv6_packet (replicate 6 0) ipv6_packet-IsIpPacket
