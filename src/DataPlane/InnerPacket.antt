-- ===== src/DataPlane/InnerPacket.antt =====
-- inner_ip_length of src/wireguard_engine.cpp, and the cut that `handle` makes by it: WireGuard pads
-- what it encrypts, and the IP header tells how long the packet was.
use tailcat_in_c.Common.{
  ℕ, ◌+◌, ◌*◌, ◌≤◌, ◌≡◌, ◌≢◌, refl, ap, ◌<◌, ◌%◌, ◌^◌, bit_and, bit_or, bit_or_disjoint,
  bit_and_mask, shl, shr, ◌||◌, inl, inr, Bool-cases, [], ◌∷◌, ◌++◌, Option, none, some, arith,
  Bytes, length, length-append, get_or, get_or-append, take, take-append, ltb, ◌==◌, if◌then◌else◌,
}

unfoldable pub version_4_length : Bytes → Option ℕ
version_4_length padded =
    if ltb (length padded) 20
    then none
    else (let ihl = bit_and (get_or padded 0 0) 0x0f * 4 in
        let total = bit_or (shl 64 (get_or padded 2 0) 8) (get_or padded 3 0) in
        if ltb ihl 20 || ltb total ihl || ltb (length padded) total then none else some total)

unfoldable pub version_6_length : Bytes → Option ℕ
version_6_length padded =
    if ltb (length padded) 40
    then none
    else (let payload = bit_or (shl 64 (get_or padded 4 0) 8) (get_or padded 5 0) in
        let total = 40 + payload in if ltb (length padded) total then none else some total)

-- A keepalive is empty.
unfoldable pub inner_ip_length : Bytes → Option ℕ
inner_ip_length [] = some 0
inner_ip_length (first ∷ rest) =
    let padded = first ∷ rest in
    if shr first 4 == 4
    then version_4_length padded
    else if shr first 4 == 6
    then version_6_length padded
    else none

-- `plaintext.resize(*length)`, to what the header states.
abbrev pub cut : Bytes → Option ℕ → Option Bytes
cut plaintext none = none
cut plaintext (some n) = some (take n plaintext)

unfoldable pub plaintext_ip : Bytes → Option Bytes
plaintext_ip plaintext = cut plaintext (inner_ip_length plaintext)

version_4-padded :
    (packet padding : Bytes)
    → version_4_length packet ≡ some (length packet)
    → version_4_length (packet ++ padding) ≡ some (length packet)
unfolding version_4_length
version_4-padded packet padding e = elim (Bool-cases (ltb (length packet) 20)) [
  | inl short ↦ let impossible = rw short at e in cc
  | inr long ↦
      let at_least : 20 ≤ length packet = ground arith in
      rw
        (
          get_or-append 0 packet padding 0 (omega arith),
          get_or-append 2 packet padding 0 (omega arith),
          get_or-append 3 packet padding 0 (omega arith),
          length-append packet padding,
        )
        (ground arith)
]

version_6-padded :
    (packet padding : Bytes)
    → version_6_length packet ≡ some (length packet)
    → version_6_length (packet ++ padding) ≡ some (length packet)
unfolding version_6_length
version_6-padded packet padding e = elim (Bool-cases (ltb (length packet) 40)) [
  | inl short ↦ let impossible = rw short at e in cc
  | inr long ↦
      let at_least : 40 ≤ length packet = ground arith in
      rw
        (
          get_or-append 4 packet padding 0 (omega arith),
          get_or-append 5 packet padding 0 (omega arith),
          length-append packet padding,
        )
        (ground arith)
]

inner_ip_length-padded :
    (first : ℕ) (rest padding : Bytes)
    → inner_ip_length (first ∷ rest) ≡ some (length (first ∷ rest))
    → inner_ip_length ((first ∷ rest) ++ padding) ≡ some (length (first ∷ rest))
unfolding inner_ip_length
inner_ip_length-padded first rest padding e = elim (Bool-cases (shr first 4 == 4)) [
  | inl four ↦ rw four (version_4-padded (first ∷ rest) padding (rw four at e))
  | inr other ↦ rw other (elim (Bool-cases (shr first 4 == 6)) [
    | inl six ↦ rw six (version_6-padded (first ∷ rest) padding (rw (other, six) at e))
    | inr neither ↦ let impossible = rw (other, neither) at e in cc
  ])
]

-- An IPv4 or IPv6 packet, by its header: the version in the upper half of the first byte, and the length
-- with its high byte first, which IPv4 gives of the whole packet, header included, and IPv6 of what is
-- behind the header of 40 bytes.
pub data IsIpPacket : Bytes → Type 0 where
  version_4 :
      (ihl service high low : ℕ) (rest : Bytes)
      → 5 ≤ ihl
      → ihl < 16
      → high < 256
      → low < 256
      → ihl * 4 ≤ high * 256 + low
      → high * 256 + low ≡ 4 + length rest
      → IsIpPacket ((64 + ihl) ∷ service ∷ high ∷ low ∷ rest)
  version_6 :
      (class flow label more high low : ℕ) (rest : Bytes)
      → class < 16
      → high < 256
      → low < 256
      → 34 ≤ length rest
      → 40 + (high * 256 + low) ≡ 6 + length rest
      → IsIpPacket ((96 + class) ∷ flow ∷ label ∷ more ∷ high ∷ low ∷ rest)

not_empty : {packet : Bytes} → IsIpPacket packet → packet ≢ []
not_empty (version_4 _ _ _ _ _ _ _ _ _ _ _) e = cc
not_empty (version_6 _ _ _ _ _ _ _ _ _ _ _ _) e = cc

two_bytes : (high low : ℕ) → high < 256 → low < 256 → bit_or (shl 64 high 8) low ≡ high * 256 + low
two_bytes high low h l =
    let small : high * 2 ^ 8 % 2 ^ 64 ≡ high * 2 ^ 8 = omega arith in
    rw (small, bit_or_disjoint 8 high low l) (omega arith)

header_words : (ihl : ℕ) → ihl < 16 → bit_and (64 + ihl) 0x0f ≡ ihl
header_words ihl h = omega (arith, bit_and_mask 4 (64 + ihl))

version_of : (version low : ℕ) → low < 16 → shr (version * 16 + low) 4 ≡ version
version_of version low h = omega arith

-- What IsIpPacket says is what inner_ip_length reads.
inner_ip_length-whole :
    (packet : Bytes) → IsIpPacket packet → inner_ip_length packet ≡ some (length packet)
unfolding inner_ip_length version_4_length version_6_length
inner_ip_length-whole _ (version_4 ihl service high low rest least fits h l header total) =
    rw (version_of 4 ihl fits, header_words ihl fits, two_bytes high low h l) (ground arith)
inner_ip_length-whole _ (version_6 class flow label more high low rest c h l long total) =
    rw (version_of 6 class c, two_bytes high low h l) (ground arith)

-- An IPv4 or IPv6 packet, whose header gives its length with the high byte first, IPv4 of the whole
-- packet and IPv6 of what is behind its 40 bytes, comes out of decrypted data as it was, whatever
-- padding stands behind it.
pub plaintext_ip-padded :
    (packet padding : Bytes) → IsIpPacket packet → plaintext_ip (packet ++ padding) ≡ some packet
unfolding plaintext_ip
plaintext_ip-padded [] padding h = absurd (not_empty h refl)
plaintext_ip-padded (first ∷ rest) padding h =
    rw (inner_ip_length-padded first rest padding (inner_ip_length-whole (first ∷ rest) h))
      (ap (λ p. some p) (take-append (first ∷ rest) padding))
