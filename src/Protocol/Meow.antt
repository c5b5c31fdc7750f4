-- ===== src/Protocol/Meow.antt =====
-- The MEOW and MEOWED packets of src/protocol.cpp, and the addresses of src/ip.cpp.
pub mod Laws
use tailcat_in_c.Common.{
  ℕ, Bool, true, false, ◌&&◌, ◌||◌, not, List, [], ◌∷◌, ◌++◌, Bytes, length, get_or, take, drop,
  replicate, leb, ltb, ◌==◌, if◌then◌else◌,
}
use tailcat_in_c.Protocol.Types.{Key32, zero_key, all_zero}

abbrev pub ping_header : Bytes
ping_header = b'm' ∷ b'e' ∷ b'o' ∷ b'w' ∷ 1 ∷ []

unfoldable pub encode_meow_ping : Key32 → Key32 → Bytes
encode_meow_ping node_public disco_public = ping_header ++ (node_public ++ disco_public)

unfoldable pub encode_meowed : Bytes
encode_meowed = b'm' ∷ b'e' ∷ b'o' ∷ b'w' ∷ 2 ∷ []

unfoldable pub is_meow_packet : Bytes → Bool
is_meow_packet packet =
    leb 4 (length packet)
    && get_or packet 0 0 == b'm'
    && get_or packet 1 0 == b'e'
    && get_or packet 2 0 == b'o'
    && get_or packet 3 0 == b'w'

unfoldable pub is_meowed_packet : Bytes → Bool
unfolding is_meow_packet
is_meowed_packet packet = leb 5 (length packet) && is_meow_packet packet && get_or packet 4 0 == 2

-- The result, and what the two output parameters hold afterwards.
unfoldable pub parse_meow_ping : Bytes → Key32 → Key32 → Bool × Key32 × Key32
parse_meow_ping packet node_public disco_public =
    if ltb (length packet) 69 || not (is_meow_packet packet) || not (get_or packet 4 0 == 1)
    then (false, node_public, disco_public)
    else (let node = take 32 (drop 5 packet) in
        let disco = take 32 (drop 37 packet) in
        if all_zero disco then (false, zero_key, zero_key) else (true, node, disco))

-- The synthetic IPv6 address of a node: a fixed prefix and the first bytes of its key.
unfoldable pub tailcat_ip_for_node : Key32 → Bytes
tailcat_ip_for_node node_public = 0xfd ∷ 0x7a ∷ 0x11 ∷ 0x5c ∷ 0xa1 ∷ 0xe0 ∷ take 10 node_public
