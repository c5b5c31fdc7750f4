-- ===== src/Tests/Server.antt =====
-- A server data plane on a small relay, engine and stack.
use tailcat_in_c.Common.{
  codes, ℕ, suc, ◌≤◌, ◌≡◌, refl, Bool, true, false, [], ◌∷◌, ◌++◌, Option, none, some, arith, Bytes,
  bytes_eq, replicate, take, drop, length, ok, ◌>>=◌,
}
use tailcat_in_c.Protocol.Types.{Key32, zero_key, all_zero}
use tailcat_in_c.Protocol.Cbor.Int64.{pos, negsuc}
use tailcat_in_c.Protocol.Meow.{
  encode_meow_ping, is_meow_packet, parse_meow_ping, tailcat_ip_for_node,
}
use tailcat_in_c.Derp.Client.{
  printable, valid_app_name, client_info_json, escape, make_derp_send_packet,
  parse_derp_recv_packet,
}
use tailcat_in_c.Derp.Client.Laws.{
  json_string, before_name, client_info_json-Names, parse_derp_recv_packet-make_derp_send_packet,
  parse_derp_recv_packet_sound,
}
use tailcat_in_c.Derp.Transport.{DerpTransport}
use tailcat_in_c.DataPlane.Parts.{WireGuardPeerEngine, LwIp, returns}
use tailcat_in_c.DataPlane.Server.{Server, handle_packet, send_ip}
use tailcat_in_c.DataPlane.Server.Invariant.{IsSafe}
use tailcat_in_c.DataPlane.Server.Behaviour.{
  new_server, pump_all, pump_all-IsSafe, handle_packet_refused, AtMostTo, send_ip-routes,
}

abbrev client : Key32
client = replicate 32 5

abbrev stranger : Key32
stranger = replicate 32 6

abbrev disco : Key32
disco = replicate 32 9

abbrev relay : DerpTransport
relay = record {
  sends = λ _. ok tt;
  receives =
      λ _. ok (some (record { type = 5; payload = client ++ encode_meow_ping client disco }));
}

-- The state counts the packets encrypted.
abbrev counting : WireGuardPeerEngine ℕ
counting = record {
  create = λ _ _. ok 0;
  create_handshake_initiation = λ n. (ok [], n);
  handle_packet = λ packet n.
      (record { outbound = packet; plaintext_ip = none; session_established = true }, n);
  encrypt_ip_packet = λ packet n. (ok packet, suc n);
  session_established = λ _. true;
}

abbrev idle : LwIp (Unit {0})
idle = record {
  allocate = λ _ _. none;
  ip6_input = λ _ k. returns k;
  check_timeouts = λ k. returns k;
}

abbrev only_client : Option (Key32 → Bool)
only_client = some (λ key. bytes_eq key client)

abbrev known_client : Server ℕ (Unit {0})
known_client = record {
  peers =
      (
        client,
        record {
          node_public = client;
          disco_public = zero_key;
          address = tailcat_ip_for_node client;
          wireguard = 3;
        },
      )
      ∷ [];
  peers_by_ip = (tailcat_ip_for_node client, client) ∷ [];
  stack = tt;
  calls = [];
}

pump_all-IsSafe_example :
    IsSafe only_client (
      pump_all relay counting idle only_client none (pos 5 ∷ negsuc 0 ∷ pos 0 ∷ []) (new_server tt))
pump_all-IsSafe_example =
    pump_all-IsSafe relay counting idle only_client none (pos 5 ∷ negsuc 0 ∷ pos 0 ∷ []) tt

handle_packet_refused_example :
    handle_packet relay counting idle only_client none stranger
      (encode_meow_ping client disco)
      known_client
    ≡ (ok true, known_client)
handle_packet_refused_example =
    handle_packet_refused relay counting idle only_client none stranger
      (encode_meow_ping client disco) known_client refl refl

ping_parsed :
    parse_meow_ping (encode_meow_ping stranger disco) zero_key zero_key ≡ (true, stranger, disco)
unfolding parse_meow_ping encode_meow_ping is_meow_packet all_zero
ping_parsed = refl

known_client-IsSafe : IsSafe only_client known_client
known_client-IsSafe = record {
  each_peer = (record { own_key = refl; admitted = refl; own_address = refl }, tt);
  each_route = ((refl, refl), tt);
  each_call = tt;
}

abbrev ip_packet : Bytes
ip_packet = 0x60 ∷ (replicate 23 0 ++ (0xfd ∷ replicate 15 0))

send_ip-routes_example :
    AtMostTo relay counting idle only_client none
      (λ node. tailcat_ip_for_node node ≡ take 16 (drop 24 ip_packet))
      []
      ((send_ip relay counting idle only_client none ip_packet known_client).1).calls
send_ip-routes_example =
    send_ip-routes relay counting idle only_client none ip_packet known_client known_client-IsSafe

abbrev quoted_name : Bytes
quoted_name = b'a' ∷ b'"' ∷ b'n' ∷ []

abbrev information : Bytes
information = before_name true ++ (b'a' ∷ b'\\' ∷ b'"' ∷ b'n' ∷ b'"' ∷ b'}' ∷ [])

information_run : client_info_json quoted_name true ≡ ok information
unfolding client_info_json valid_app_name printable escape
information_run = refl

client_info_json-Names_example :
    (printable quoted_name ≡ true)
    × (length quoted_name ≤ 32)
    × (text : Bytes) × (information ≡ before_name true ++ text)
    × (json_string false text ≡ some (quoted_name, codes "}"))
client_info_json-Names_example =
    client_info_json-Names quoted_name true information information_run refl

parse_derp_recv_packet-make_derp_send_packet_example :
    (make_derp_send_packet client (1 ∷ [])
      >>= (λ payload. ok (parse_derp_recv_packet payload [] [])))
    ≡ ok (true, client, 1 ∷ [])
parse_derp_recv_packet-make_derp_send_packet_example =
    parse_derp_recv_packet-make_derp_send_packet client (1 ∷ []) [] [] refl (omega arith)

recv_run : parse_derp_recv_packet (client ++ (1 ∷ [])) [] [] ≡ (true, client, 1 ∷ [])
unfolding parse_derp_recv_packet
recv_run = refl

parse_derp_recv_packet_sound_example :
    (client ++ (1 ∷ []) ≡ client ++ (1 ∷ [])) × (length client ≡ 32) × (1 ≤ 65536)
parse_derp_recv_packet_sound_example =
    parse_derp_recv_packet_sound (client ++ (1 ∷ [])) [] [] client (1 ∷ []) recv_run
