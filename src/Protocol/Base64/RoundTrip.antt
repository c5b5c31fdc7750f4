-- ===== src/Protocol/Base64/RoundTrip.antt =====
-- What base64url_encode writes, base64url_decode reads back.
use tailcat_in_c.Common.{
  ℕ, ◌+◌, ◌*◌, ◌/◌, ◌%◌, ◌^◌, ◌<◌, bit_or, shl, shr, bit_or_disjoint, bit_and_mask, ◌≢◌, ◌≡◌, refl,
  ap, ap₂, ◌∙◌, Bool, true, false, [], ◌∷◌, arith, Bytes, IsBytes, contains, empty, length, get_or,
  ◌==◌, ==_iff, if◌then◌else◌, Result, ok, err, passes_below, passes_below_lem,
}
use tailcat_in_c.Protocol.Base64.{
  alphabet, sextet, join_bytes, base64url_encode, b64_value, join_sextets, octet, decode_groups,
  base64url_decode,
}

-- The alphabet and `b64_value` are inverse on the 64 digits, and `=` is no digit.
abbrev is_value : ℕ → Result ℕ → Bool
is_value i (ok n) = n == i
is_value i (err e) = false

is_value_sound : (i : ℕ) (r : Result ℕ) → is_value i r ≡ true → r ≡ ok i
is_value_sound i (ok n) h = ap ok ((==_iff n i).0 h)
is_value_sound i (err e) h = ground arith

values_table : passes_below (λ i. is_value i (b64_value (get_or alphabet i 0))) 64 ≡ true
unfolding passes_below b64_value
values_table = refl

b64_value-alphabet : (i : ℕ) → i < 64 → b64_value (get_or alphabet i 0) ≡ ok i
b64_value-alphabet i h = is_value_sound i _ (passes_below_lem 64 i _ h values_table)

padding_table : passes_below (λ i. if get_or alphabet i 0 == b'=' then false else true) 64 ≡ true
unfolding passes_below
padding_table = refl

alphabet-unpadded : (i : ℕ) → i < 64 → (get_or alphabet i 0 == b'=') ≡ false
alphabet-unpadded i h = ground (
  arith,
  passes_below_lem 64 i (λ i. if get_or alphabet i 0 == b'=' then false else true) h padding_table,
)

sextet_lem : (v k : ℕ) → sextet v k ≡ get_or alphabet (shr v k % 64) 0
unfolding sextet
sextet_lem v k = ap (λ i. get_or alphabet i 0) (bit_and_mask 6 (shr v k))

pub b64_value-sextet : (v k : ℕ) → b64_value (sextet v k) ≡ ok (shr v k % 64)
b64_value-sextet v k = rw sextet_lem (b64_value-alphabet (shr v k % 64) (mod_small (shr v k)))
  where
    mod_small : (n : ℕ) → n % 64 < 64
    mod_small n = omega arith

sextet-unpadded : (v k : ℕ) → (sextet v k == b'=') ≡ false
sextet-unpadded v k = rw sextet_lem (alphabet-unpadded (shr v k % 64) (mod_small (shr v k)))
  where
    mod_small : (n : ℕ) → n % 64 < 64
    mod_small n = omega arith

octet_lem : (v k : ℕ) → octet v k ≡ shr v k % 256
unfolding octet
octet_lem v k = omega (arith, bit_and_mask 8 (shr v k))

-- The words as sums.
join_two : (a b : ℕ) → a < 256 → b < 256 → bit_or (shl 32 a 16) (shl 32 b 8) ≡ a * 65536 + b * 256
join_two a b ha hb =
    let ea : shl 32 a 16 ≡ a * 2 ^ 16 = omega arith in
    let eb : shl 32 b 8 ≡ b * 256 = omega arith in
    rw (ea, eb) (bit_or_disjoint 16 a (b * 256) (omega arith))

join_bytes_lem :
    (a b c : ℕ) → a < 256 → b < 256 → c < 256 → join_bytes a b c ≡ a * 65536 + b * 256 + c
unfolding join_bytes
join_bytes_lem a b c ha hb hc =
    let e : a * 65536 + b * 256 ≡ (a * 256 + b) * 2 ^ 8 = omega arith in
    rw (join_two a b ha hb, e) (bit_or_disjoint 8 (a * 256 + b) c (omega arith))

join_two_sextets :
    (p q : ℕ) → p < 64 → q < 64 → bit_or (shl 32 p 18) (shl 32 q 12) ≡ (p * 64 + q) * 2 ^ 12
join_two_sextets p q hp hq =
    let ep : shl 32 p 18 ≡ p * 2 ^ 18 = omega arith in
    let eq : shl 32 q 12 ≡ q * 4096 = omega arith in
    rw (ep, eq) (bit_or_disjoint 18 p (q * 4096) (omega arith) ∙ omega arith)

join_three_sextets :
    (p q r : ℕ)
    → p < 64
    → q < 64
    → r < 64
    → bit_or (bit_or (shl 32 p 18) (shl 32 q 12)) (shl 32 r 6) ≡ (p * 4096 + q * 64 + r) * 2 ^ 6
join_three_sextets p q r hp hq hr =
    let er : shl 32 r 6 ≡ r * 64 = omega arith in
    rw (join_two_sextets p q hp hq, er)
      (bit_or_disjoint 12 (p * 64 + q) (r * 64) (omega arith) ∙ omega arith)

join_sextets_lem :
    (p q r s : ℕ)
    → p < 64
    → q < 64
    → r < 64
    → s < 64
    → join_sextets p q r s ≡ p * 262144 + q * 4096 + r * 64 + s
unfolding join_sextets
join_sextets_lem p q r s hp hq hr hs =
    rw (join_three_sextets p q r hp hq hr)
      (bit_or_disjoint 6 (p * 4096 + q * 64 + r) s (omega arith) ∙ omega arith)

-- A word of 24 bits falls apart into sextets and is put together again.
resplit :
    (v : ℕ)
    → v < 16777216
    → join_sextets (shr v 18 % 64) (shr v 12 % 64) (shr v 6 % 64) (shr v 0 % 64) ≡ v
resplit v h =
    join_sextets_lem (shr v 18 % 64) (shr v 12 % 64) (shr v 6 % 64) (shr v 0 % 64) (omega arith)
      (omega arith) (omega arith) (omega arith)
    ∙ omega arith

resplit_two :
    (v : ℕ)
    → v < 16777216
    → bit_or (shl 32 (shr v 18 % 64) 18) (shl 32 (shr v 12 % 64) 12) ≡ v / 4096 * 4096
resplit_two v h =
    join_two_sextets (shr v 18 % 64) (shr v 12 % 64) (omega arith) (omega arith) ∙ omega arith

resplit_three :
    (v : ℕ)
    → v < 16777216
    → bit_or
        (bit_or (shl 32 (shr v 18 % 64) 18) (shl 32 (shr v 12 % 64) 12))
        (shl 32 (shr v 6 % 64) 6)
      ≡ v / 64 * 64
resplit_three v h =
    join_three_sextets (shr v 18 % 64) (shr v 12 % 64) (shr v 6 % 64) (omega arith) (omega arith)
      (omega arith)
    ∙ omega arith

decode-encode_one : (a : ℕ) → a < 256 → decode_groups (base64url_encode (a ∷ [])) ≡ ok (a ∷ [])
unfolding decode_groups base64url_encode
decode-encode_one a ha =
    let v : ℕ = shl 32 a 16 in
    let e : v ≡ a * 65536 = omega arith in
    rw (b64_value-sextet v 18, b64_value-sextet v 12, resplit_two v (omega arith), octet_lem)
      (ap (λ x. ok (x ∷ [])) (omega arith))

decode-encode_two :
    (a b : ℕ) → a < 256 → b < 256 → decode_groups (base64url_encode (a ∷ b ∷ [])) ≡ ok (a ∷ b ∷ [])
unfolding decode_groups base64url_encode
decode-encode_two a b ha hb =
    let v : ℕ = bit_or (shl 32 a 16) (shl 32 b 8) in
    let e : v ≡ a * 65536 + b * 256 = join_two a b ha hb in
    rw
      (
        b64_value-sextet v 18,
        b64_value-sextet v 12,
        b64_value-sextet v 6,
        resplit_three v (omega arith),
        octet_lem,
        octet_lem,
      )
      (ap₂ (λ x y. ok (x ∷ y ∷ [])) (omega arith) (omega arith))

decode_four :
    (w x y z : ℕ) (rest : Bytes) {p q r s : ℕ} {back : Bytes}
    → b64_value w ≡ ok p
    → b64_value x ≡ ok q
    → b64_value y ≡ ok r
    → b64_value z ≡ ok s
    → decode_groups rest ≡ ok back
    → let v = join_sextets p q r s in
      decode_groups (w ∷ x ∷ y ∷ z ∷ rest) ≡ ok (octet v 16 ∷ octet v 8 ∷ octet v 0 ∷ back)
unfolding decode_groups
decode_four w x y z rest hw hx hy hz h = rw (hw, hx, hy, hz, h)

encode_four :
    (a b c : ℕ) (rest : Bytes)
    → let v = join_bytes a b c in
      base64url_encode (a ∷ b ∷ c ∷ rest)
      ≡ sextet v 18 ∷ sextet v 12 ∷ sextet v 6 ∷ sextet v 0 ∷ base64url_encode rest
unfolding base64url_encode
encode_four a b c rest = refl

decode-encode_three :
    (a b c : ℕ) (rest back : Bytes)
    → a < 256
    → b < 256
    → c < 256
    → decode_groups (base64url_encode rest) ≡ ok back
    → decode_groups (base64url_encode (a ∷ b ∷ c ∷ rest)) ≡ ok (a ∷ b ∷ c ∷ back)
decode-encode_three a b c rest back ha hb hc h =
    let v : ℕ = join_bytes a b c in
    let e : v ≡ a * 65536 + b * 256 + c = join_bytes_lem a b c ha hb hc in
    rw (encode_four a b c rest) (
      decode_four _ _ _ _ _ (b64_value-sextet v 18) (b64_value-sextet v 12) (b64_value-sextet v 6)
        (b64_value-sextet v 0) h
      ∙ rw (resplit v (omega arith), octet_lem, octet_lem, octet_lem)
          (split_word v a b c back e ha hb hc))
  where
    split_word :
        (v a b c : ℕ) (back : Bytes)
        → v ≡ a * 65536 + b * 256 + c
        → a < 256
        → b < 256
        → c < 256
        → ok (shr v 16 % 256 ∷ shr v 8 % 256 ∷ shr v 0 % 256 ∷ back) ≡ ok (a ∷ b ∷ c ∷ back)
    split_word v a b c back e ha hb hc =
        let e1 : shr v 16 % 256 ≡ a = omega arith in
        let e2 : shr v 8 % 256 ≡ b = omega arith in
        let e3 : shr v 0 % 256 ≡ c = omega arith in cc (e1, e2, e3)

decode_groups-encode : (bs : Bytes) → IsBytes bs → decode_groups (base64url_encode bs) ≡ ok bs
decode_groups-encode [] h = unfold base64url_encode decode_groups in refl
decode_groups-encode (a ∷ []) h = decode-encode_one a h.0
decode_groups-encode (a ∷ b ∷ []) h = decode-encode_two a b h.0 h.1.0
decode_groups-encode (a ∷ b ∷ c ∷ rest) h =
    decode-encode_three a b c rest rest h.0 h.1.0 h.1.1.0 (decode_groups-encode rest h.1.1.1)

-- The encoder never pads, and never leaves a lone character.
encode-unpadded : (bs : Bytes) → contains b'=' (base64url_encode bs) ≡ false
unfolding base64url_encode
encode-unpadded [] = refl
encode-unpadded (a ∷ []) = simp sextet-unpadded
encode-unpadded (a ∷ b ∷ []) = simp sextet-unpadded
encode-unpadded (a ∷ b ∷ c ∷ rest) = simp (sextet-unpadded, encode-unpadded rest)

encode_size : (bs : Bytes) → length (base64url_encode bs) ≡ (length bs * 4 + 2) / 3
unfolding base64url_encode
encode_size [] = refl
encode_size (a ∷ []) = refl
encode_size (a ∷ b ∷ []) = refl
encode_size (a ∷ b ∷ c ∷ rest) = omega (arith, encode_size rest)

-- base64url_encode writes as many characters as it reserves, and no `=`.
pub base64url_encode_shape :
    (bs : Bytes)
    → (length (base64url_encode bs) ≡ (length bs * 4 + 2) / 3)
      × (contains b'=' (base64url_encode bs) ≡ false)
base64url_encode_shape bs = (encode_size bs, encode-unpadded bs)

encode-nonempty : (bs : Bytes) → bs ≢ [] → empty (base64url_encode bs) ≡ false
unfolding base64url_encode
encode-nonempty [] h = absurd (h refl)
encode-nonempty (a ∷ []) h = refl
encode-nonempty (a ∷ b ∷ []) h = refl
encode-nonempty (a ∷ b ∷ c ∷ rest) h = refl

-- base64url_decode gives back what base64url_encode was given, for every byte string but the empty
-- one.
pub base64url_decode-encode :
    (bs : Bytes) → IsBytes bs → bs ≢ [] → base64url_decode (base64url_encode bs) ≡ ok bs
unfolding base64url_decode
base64url_decode-encode bs h ne =
    rw (encode-nonempty bs ne, encode-unpadded bs, size_passes) (decode_groups-encode bs h)
  where
    size_passes : (length (base64url_encode bs) % 4 == 1) ≡ false
    size_passes = ground (arith, encode_size bs)
