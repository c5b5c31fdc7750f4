-- ===== src/Derp/Client.antt =====
-- The payloads of src/derp.cpp: the server's greeting, the client's information and packets. Sealing
-- and opening boxes is libsodium's and stands as a parameter.
pub mod Laws
use tailcat_in_c.Common.{
  ℕ, ◌*◌, Bool, true, false, ◌&&◌, ◌||◌, not, List, [], ◌∷◌, ◌++◌, Bytes, codes, starts_with, empty,
  length, take, drop, ltb, leb, ◌==◌, if◌then◌else◌, Result, ok, err, runtime_error, throw_if,
  ◌>>=◌, ◌>>◌,
}
use tailcat_in_c.Protocol.Types.{Key32}

-- include/tailcat/crypto.hpp
pub record NodeKeyPair : Type 0 where
  pub private_key : Key32
  pub public_key : Key32

abbrev pub derp_magic : Bytes
derp_magic = 0x44 ∷ 0x45 ∷ 0x52 ∷ 0x50 ∷ 0xf0 ∷ 0x9f ∷ 0x94 ∷ 0x91 ∷ []

abbrev pub derp_max_packet : ℕ
derp_max_packet = 64 * 1024

unfoldable pub printable : Bytes → Bool
printable [] = true
printable (c ∷ cs) = if leb 0x20 c && leb c 0x7e then printable cs else false

unfoldable pub valid_app_name : Bytes → Bool
valid_app_name name = if ltb 32 (length name) then false else printable name

-- A backslash before each quote and backslash.
unfoldable pub escape : Bytes → Bytes
escape [] = []
escape (c ∷ cs) =
    let rest = escape cs in if c == b'\\' || c == b'"' then b'\\' ∷ c ∷ rest else c ∷ rest

unfoldable pub client_info_json : Bytes → Bool → Result Bytes
client_info_json app_name can_ack_pings = do
  throw_if (not (valid_app_name app_name)) (runtime_error "invalid DERP app name")
  ok (
      codes "{\"version\":2,\"CanAckPings\":"
      ++ ((if can_ack_pings then codes "true" else codes "false")
          ++ ((if empty app_name
                then []
                else (codes ",\"AppName\":\"" ++ (escape app_name ++ codes "\"")))
              ++ codes "}")))

unfoldable pub parse_derp_server_key : Bytes → Result Key32
parse_derp_server_key payload = do
  throw_if (ltb (length payload) 40 || not (starts_with payload derp_magic))
      (runtime_error "invalid DERP server greeting")
  ok (take 32 (drop 8 payload))

module _ (nacl_box_seal nacl_box_open : Key32 → Key32 → Bytes → Result Bytes) where
  unfoldable pub make_derp_client_info : NodeKeyPair → Key32 → Bytes → Bool → Result Bytes
  make_derp_client_info client server_public app_name can_ack_pings = do
    json ← client_info_json app_name can_ack_pings
    boxed ← nacl_box_seal client.private_key server_public json
    ok (client.public_key ++ boxed)

  unfoldable pub open_derp_server_info : NodeKeyPair → Key32 → Bytes → Result Bytes
  open_derp_server_info client server_public payload =
      nacl_box_open client.private_key server_public payload

unfoldable pub make_derp_send_packet : Key32 → Bytes → Result Bytes
make_derp_send_packet destination packet = do
  throw_if (ltb derp_max_packet (length packet)) (runtime_error "DERP packet exceeds 64 KiB")
  ok (destination ++ packet)

-- The result, and what the two output parameters hold afterwards.
unfoldable pub parse_derp_recv_packet : Bytes → Key32 → Bytes → Bool × Key32 × Bytes
parse_derp_recv_packet payload source packet =
    if ltb (length payload) 32
    then (false, source, packet)
    else (leb (length (drop 32 payload)) derp_max_packet, take 32 payload, drop 32 payload)
