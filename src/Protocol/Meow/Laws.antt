-- ===== src/Protocol/Meow/Laws.antt =====
-- MEOW packets: what the encoder writes is told apart and read back, and what is read is usable.
use tailcat_in_c.Common.{
  ℕ, suc, ◌≤◌, ◌≡◌, refl, sym, ap, ◌∙◌, Bool, true, false, ◌++◌, append_assoc, arith, Bytes, length,
  length-append, length-take, length-drop, take, drop, take-append, drop-append, ltb, if◌then◌else◌,
}
use tailcat_in_c.Protocol.Types.{Key32, zero_key, all_zero}
use tailcat_in_c.Protocol.Meow.{
  ping_header, encode_meow_ping, encode_meowed, is_meow_packet, is_meowed_packet, parse_meow_ping,
  tailcat_ip_for_node,
}

take_first : (n : ℕ) (xs ys : Bytes) → length xs ≡ n → take n (xs ++ ys) ≡ xs
take_first n xs ys h = ap (λ k. take k (xs ++ ys)) (sym h) ∙ take-append xs ys

drop_first : (n : ℕ) (xs ys : Bytes) → length xs ≡ n → drop n (xs ++ ys) ≡ ys
drop_first n xs ys h = ap (λ k. drop k (xs ++ ys)) (sym h) ∙ drop-append xs ys

header_is_meow : (t : Bytes) → is_meow_packet (ping_header ++ t) ≡ true
unfolding is_meow_packet
header_is_meow t = ground arith

-- Behind the five bytes of the header, with room for both keys.
parse_body :
    (t : Bytes) (n0 d0 : Key32)
    → 64 ≤ length t
    → parse_meow_ping (ping_header ++ t) n0 d0 ≡ (
        if all_zero (take 32 (drop 32 t))
        then (false, zero_key, zero_key)
        else (true, take 32 t, take 32 (drop 32 t)))
unfolding parse_meow_ping
parse_body t n0 d0 h = rw (long_enough, header_is_meow t)
  where
    long_enough : ltb (suc (suc (suc (suc (suc (length t)))))) 69 ≡ false
    long_enough = ground arith

-- A ping that encode_meow_ping wrote for two keys of 32 bytes, the disco key not zero, is parsed to
-- its keys, also with bytes behind it, and is_meowed_packet does not take it for an acknowledgment;
-- encode_meowed is one, and parse_meow_ping refuses it.
pub parse_meow_ping-encode_meow_ping :
    (node disco extra n0 d0 : Bytes)
    → length node ≡ 32
    → length disco ≡ 32
    → all_zero disco ≡ false
    → (parse_meow_ping (encode_meow_ping node disco ++ extra) n0 d0 ≡ (true, node, disco))
      × (is_meowed_packet (encode_meow_ping node disco ++ extra) ≡ false)
      × (is_meowed_packet encode_meowed ≡ true)
      × (parse_meow_ping encode_meowed n0 d0 ≡ (false, n0, d0))
parse_meow_ping-encode_meow_ping node disco extra n0 d0 hn hd nz = (
  parsed,
  told_apart,
  unfold encode_meowed is_meowed_packet in refl,
  unfold encode_meowed parse_meow_ping in refl,
)
  where
    t : Bytes
    t = node ++ (disco ++ extra)

    shape : encode_meow_ping node disco ++ extra ≡ ping_header ++ t
    shape = unfold encode_meow_ping in ap (λ x. ping_header ++ x) (append_assoc node disco extra)

    room : 64 ≤ length t
    room = omega (arith, length-append node (disco ++ extra), length-append disco extra)

    parsed : parse_meow_ping (encode_meow_ping node disco ++ extra) n0 d0 ≡ (true, node, disco)
    parsed = rw (
      shape,
      parse_body t n0 d0 room,
      drop_first 32 node (disco ++ extra) hn,
      take_first 32 node (disco ++ extra) hn,
      take_first 32 disco extra hd,
      nz,
    )

    told_apart : is_meowed_packet (encode_meow_ping node disco ++ extra) ≡ false
    told_apart = rw shape (unfold is_meowed_packet in ground arith)

parse_cases :
    (c z : Bool) (n0 d0 node disco n d : Key32)
    → (if c
        then (false, n0, d0)
        else (if z then (false, zero_key, zero_key) else (true, node, disco)))
      ≡ (let r : Bool × Key32 × Key32 = (true, n, d) in r)
    → (c ≡ false) × (z ≡ false) × (node ≡ n) × (disco ≡ d)
parse_cases true z n0 d0 node disco n d e = cc
parse_cases false true n0 d0 node disco n d e = cc
parse_cases false false n0 d0 node disco n d e = (refl, refl, ap (λ r. r.1) e, ap (λ r. r.2) e)

-- If parse_meow_ping returns true, the packet is a MEOW packet and no acknowledgment, both keys
-- have 32 bytes, and the disco key is not zero.
pub parse_meow_ping_sound :
    (packet n0 d0 node disco : Bytes)
    → parse_meow_ping packet n0 d0 ≡ (true, node, disco)
    → (is_meow_packet packet ≡ true)
      × (is_meowed_packet packet ≡ false)
      × (length node ≡ 32)
      × (length disco ≡ 32)
      × (all_zero disco ≡ false)
unfolding parse_meow_ping is_meowed_packet
parse_meow_ping_sound packet n0 d0 node disco e =
    let (c, z, en, ed) = parse_cases _ _ n0 d0 _ _ node disco e in
    let long : 69 ≤ length packet = ground arith in
    (
      ground arith,
      ground arith,
      omega (arith, ap (length {0}) en, length-take 32 (drop 5 packet), length-drop 5 packet),
      omega (arith, ap (length {0}) ed, length-take 32 (drop 37 packet), length-drop 37 packet),
      rw (← ed) z,
    )

pub length-tailcat_ip_for_node : (a : Key32) → length a ≡ 32 → length (tailcat_ip_for_node a) ≡ 16
unfolding tailcat_ip_for_node
length-tailcat_ip_for_node a h = omega (arith, length-take 10 a)
