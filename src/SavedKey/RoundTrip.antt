-- ===== src/SavedKey/RoundTrip.antt =====
-- Keys written as text and read back.
use tailcat_in_c.Common.{
  ℕ, ◌*◌, ◌/◌, ◌%◌, ◌^◌, ◌<◌, bit_or, shl, bit_or_disjoint, ◌≡◌, refl, true, [], ◌∷◌, arith, Bytes,
  IsBytes, starts_with-append, length, drop-append, ◌==◌, ok,
}
use tailcat_in_c.Protocol.Types.{Key32}
use tailcat_in_c.SavedKey.{
  hex_digit, hex_bytes, hex_key, tolower, hex_nibble, parse_digits, parse_key,
}

hex_nibble-hex_digit : (n : ℕ) → n < 16 → hex_nibble (hex_digit n) ≡ ok n
unfolding hex_nibble hex_digit tolower
hex_nibble-hex_digit n h = ground arith

join_nibbles : (byte : ℕ) → byte < 256 → bit_or (shl 32 (byte / 16) 4) (byte % 16) % 256 ≡ byte
join_nibbles byte h =
    let e : shl 32 (byte / 16) 4 ≡ byte / 16 * 2 ^ 4 = omega arith in
    rw e (omega (arith, bit_or_disjoint 4 (byte / 16) (byte % 16) (omega arith)))

parse_digits-hex_bytes : (bytes : Bytes) → IsBytes bytes → parse_digits (hex_bytes bytes) ≡ ok bytes
unfolding parse_digits hex_bytes
parse_digits-hex_bytes [] h = refl
parse_digits-hex_bytes (byte ∷ bytes) h = rw (
  hex_nibble-hex_digit (byte / 16) (omega (arith, h.0)),
  hex_nibble-hex_digit (byte % 16) (omega arith),
  parse_digits-hex_bytes bytes h.1,
  join_nibbles byte h.0,
)

length-hex_bytes : (bytes : Bytes) → length (hex_bytes bytes) ≡ 2 * length bytes
unfolding hex_bytes
length-hex_bytes [] = refl
length-hex_bytes (byte ∷ bytes) = omega (arith, length-hex_bytes bytes)

-- parse_key gives back every key of 32 bytes that hex_key wrote under the same prefix.
pub parse_key-hex_key :
    (prefix : Bytes) (key : Key32)
    → IsBytes key
    → length key ≡ 32
    → parse_key (hex_key prefix key) prefix ≡ ok key
unfolding parse_key hex_key
parse_key-hex_key prefix key h size =
    rw (starts_with-append prefix (hex_bytes key), drop-append prefix (hex_bytes key), full)
      (parse_digits-hex_bytes key h)
  where
    full : (length (hex_bytes key) == 64) ≡ true
    full = ground (arith, length-hex_bytes key)

-- Digits are read whatever their case.
hex_nibble-tolower : (c : ℕ) → hex_nibble (tolower c) ≡ hex_nibble c
unfolding hex_nibble tolower
hex_nibble-tolower c = ground arith
