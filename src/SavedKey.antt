-- ===== src/SavedKey.antt =====
-- The key texts of src/saved_key.cpp: a prefix and 64 hexadecimal digits.
pub mod RoundTrip
pub mod File
use tailcat_in_c.Common.{
  ℕ, ◌+◌, ◌-◌, ◌*◌, ◌/◌, ◌%◌, bit_or, shl, Bool, true, false, ◌&&◌, not, List, [], ◌∷◌, ◌++◌, Bytes,
  starts_with, length, drop, ltb, leb, ◌==◌, if◌then◌else◌, Result, ok, err, invalid_argument,
  throw_if, ◌>>=◌, ◌>>◌,
}
use tailcat_in_c.Protocol.Types.{Key32}

-- A number below 16 as the stream writes it with `std::hex`.
unfoldable pub hex_digit : ℕ → ℕ
hex_digit n = if ltb n 10 then b'0' + n else b'a' + (n - 10)

-- Two digits for each byte, filled up with `0`.
unfoldable pub hex_bytes : Bytes → Bytes
hex_bytes [] = []
hex_bytes (byte ∷ bytes) = hex_digit (byte / 16) ∷ hex_digit (byte % 16) ∷ hex_bytes bytes

unfoldable pub hex_key : Bytes → Key32 → Bytes
hex_key prefix key = prefix ++ hex_bytes key

-- `std::tolower` on ASCII.
unfoldable pub tolower : ℕ → ℕ
tolower c = if leb b'A' c && leb c b'Z' then c + 32 else c

unfoldable pub hex_nibble : ℕ → Result ℕ
hex_nibble c =
    if leb b'0' c && leb c b'9'
    then ok (c - b'0')
    else if leb b'a' (tolower c) && leb (tolower c) b'f'
    then ok (10 + (tolower c - b'a'))
    else err (invalid_argument "invalid hexadecimal key text")

-- The loop over pairs of digits.
unfoldable pub parse_digits : Bytes → Result Bytes
parse_digits [] = ok []
parse_digits (_ ∷ []) = ok []
parse_digits (c ∷ d ∷ rest) = do
  high ← hex_nibble c
  low ← hex_nibble d
  tail ← parse_digits rest
  ok (bit_or (shl 32 high 4) low % 256 ∷ tail)

unfoldable pub parse_key : Bytes → Bytes → Result Key32
parse_key text prefix = do
  throw_if (not (starts_with text prefix)) (invalid_argument "key has wrong type prefix")
  let digits = drop (length prefix) text
  throw_if (not (length digits == 64)) (invalid_argument "key has wrong length")
  parse_digits digits
