-- ===== src/Protocol/Base64.antt =====
-- base64url_encode, b64_value and base64url_decode of src/protocol.cpp.
pub mod RoundTrip
use tailcat_in_c.Common.{
  ℕ, zero, suc, ◌+◌, ◌-◌, ◌%◌, ◌^◌, ◌/◌, ◌*◌, bit_and, bit_or, shl, shr, Bool, true, false, ◌&&◌,
  ◌||◌, List, [], ◌∷◌, ◌++◌, Bytes, codes, contains, empty, length, get_or, leb, ◌==◌,
  if◌then◌else◌, Result, ok, err, runtime_error, throw_if, ◌>>=◌, ◌>>◌,
}

abbrev pub alphabet : Bytes
alphabet = codes "ABCDEFGHIJKLMNOPQRSTUVWXYZabcdefghijklmnopqrstuvwxyz0123456789-_"

-- `alphabet[(v >> k) & 63U]`
unfoldable pub sextet : ℕ → ℕ → ℕ
sextet v k = get_or alphabet (bit_and (shr v k) 63) 0

-- Three bytes in one 32-bit word.
unfoldable pub join_bytes : ℕ → ℕ → ℕ → ℕ
join_bytes a b c = bit_or (bit_or (shl 32 a 16) (shl 32 b 8)) c

unfoldable pub base64url_encode : Bytes → Bytes
base64url_encode [] = []
base64url_encode (a ∷ []) = let v = shl 32 a 16 in sextet v 18 ∷ sextet v 12 ∷ []
base64url_encode (a ∷ b ∷ []) =
    let v = bit_or (shl 32 a 16) (shl 32 b 8) in sextet v 18 ∷ sextet v 12 ∷ sextet v 6 ∷ []
base64url_encode (a ∷ b ∷ c ∷ rest) =
    let v = join_bytes a b c in
    sextet v 18 ∷ sextet v 12 ∷ sextet v 6 ∷ sextet v 0 ∷ base64url_encode rest

unfoldable pub b64_value : ℕ → Result ℕ
b64_value c =
    if leb b'A' c && leb c b'Z'
    then ok (c - b'A')
    else if leb b'a' c && leb c b'z'
    then ok (26 + c - b'a')
    else if leb b'0' c && leb c b'9'
    then ok (52 + c - b'0')
    else if c == b'-'
    then ok 62
    else if c == b'_'
    then ok 63
    else err (runtime_error "invalid base64url character")

-- Four sextets in one 32-bit word; a missing one is 0.
unfoldable pub join_sextets : ℕ → ℕ → ℕ → ℕ → ℕ
join_sextets p q r s = bit_or (bit_or (bit_or (shl 32 p 18) (shl 32 q 12)) (shl 32 r 6)) s

-- `static_cast<std::uint8_t>((v >> k) & 0xffU)`
unfoldable pub octet : ℕ → ℕ → ℕ
octet v k = bit_and (shr v k) 0xff % 256

-- The loop over groups of four and the two or three characters behind it.
unfoldable pub decode_groups : Bytes → Result Bytes
decode_groups [] = ok []
decode_groups (_ ∷ []) = ok []
decode_groups (w ∷ x ∷ []) = do
  p ← b64_value w
  q ← b64_value x
  ok (octet (bit_or (shl 32 p 18) (shl 32 q 12)) 16 ∷ [])
decode_groups (w ∷ x ∷ y ∷ []) = do
  p ← b64_value w
  q ← b64_value x
  r ← b64_value y
  let v = bit_or (bit_or (shl 32 p 18) (shl 32 q 12)) (shl 32 r 6)
  ok (octet v 16 ∷ octet v 8 ∷ [])
decode_groups (w ∷ x ∷ y ∷ z ∷ rest) = do
  p ← b64_value w
  q ← b64_value x
  r ← b64_value y
  s ← b64_value z
  let v = join_sextets p q r s
  tail ← decode_groups rest
  ok (octet v 16 ∷ octet v 8 ∷ octet v 0 ∷ tail)

unfoldable pub base64url_decode : Bytes → Result Bytes
base64url_decode text = do
  throw_if (empty text || contains b'=' text || length text % 4 == 1)
      (runtime_error "invalid base64url length or padding")
  decode_groups text
