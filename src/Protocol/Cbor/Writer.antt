-- ===== src/Protocol/Cbor/Writer.antt =====
-- CborWriter of src/protocol.cpp.
use tailcat_in_c.Common.{
  ℕ, ◌%◌, bit_and, bit_or, shl, shr, Bool, [], ◌∷◌, ◌++◌, map, Bytes, length, ltb, leb,
  if◌then◌else◌,
}
use tailcat_in_c.Protocol.Cbor.Int64.{ℤ, pos, negsuc}

-- `static_cast<std::uint8_t>((value >> shift) & 0xffU)`
unfoldable pub octet_at : ℕ → ℕ → ℕ
octet_at value shift = bit_and (shr value shift) 0xff % 256

unfoldable pub head : ℕ → ℕ → Bytes
head major value =
    let prefix = shl 8 major 5 in
    if ltb value 24
    then bit_or prefix (value % 256) ∷ []
    else if leb value 0xff
    then bit_or prefix 24 ∷ value % 256 ∷ []
    else if leb value 0xffff
    then bit_or prefix 25 ∷ octet_at value 8 ∷ octet_at value 0 ∷ []
    else if leb value 0xffffffff
    then bit_or prefix 26 ∷ map (octet_at value) (24 ∷ 16 ∷ 8 ∷ 0 ∷ [])
    else bit_or prefix 27 ∷ map (octet_at value) (56 ∷ 48 ∷ 40 ∷ 32 ∷ 24 ∷ 16 ∷ 8 ∷ 0 ∷ [])

unfoldable pub map_head : ℕ → Bytes
map_head n = head 5 n

unfoldable pub array : ℕ → Bytes
array n = head 4 n

unfoldable pub text : Bytes → Bytes
text s = head 3 (length s) ++ s

unfoldable pub bytes : Bytes → Bytes
bytes b = head 2 (length b) ++ b

unfoldable pub integer : ℤ → Bytes
integer (pos n) = head 0 n
integer (negsuc n) = head 1 n

unfoldable pub boolean : Bool → Bytes
boolean value = (if value then 0xf5 else 0xf4) ∷ []
