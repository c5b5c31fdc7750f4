-- ===== src/Derp/Frame/RoundTrip.antt =====
-- Frames written are frames read, one at a time and out of a stream that arrives in pieces.
use tailcat_in_c.Common.{
  ℕ, zero, suc, ◌+◌, ◌*◌, ◌%◌, ◌^◌, ◌≤◌, ◌<◌, bit_or, shl, shr, bit_or_disjoint, bit_and_mask, ◌≡◌,
  refl, sym, ap, ◌∙◌, true, false, inl, inr, [], ◌∷◌, ◌++◌, Option, none, some, arith, Bytes,
  length, length-append, length-drop, get_or, get_or-append, take, drop, take-append, drop-append,
  ltb, ◌==◌, Bool-cases, Result, ok, err, ◌>>=◌,
}
use tailcat_in_c.Derp.Frame.{
  DerpFrame, octet, max_frame_size, encode_derp_frame, stated_length, decode_derp_frame,
  take_buffered_frame,
}

octet_lem : (len k : ℕ) → octet len k ≡ shr len k % 256
unfolding octet
octet_lem len k = omega (arith, bit_and_mask 8 (shr len k))

-- Four bytes joined, highest first.
join_four :
    (a b c d : ℕ)
    → a < 256
    → b < 256
    → c < 256
    → d < 256
    → bit_or (bit_or (bit_or (shl 32 a 24) (shl 32 b 16)) (shl 32 c 8)) d
      ≡ a * 16777216 + b * 65536 + c * 256 + d
join_four a b c d ha hb hc hd =
    let ea : shl 32 a 24 ≡ a * 2 ^ 24 = omega arith in
    let eb : shl 32 b 16 ≡ b * 65536 = omega arith in
    let ec : shl 32 c 8 ≡ c * 256 = omega arith in
    let e1 : bit_or (a * 2 ^ 24) (b * 65536) ≡ (a * 256 + b) * 2 ^ 16 =
      bit_or_disjoint 24 a (b * 65536) (omega arith) ∙ omega arith in
    let e2 : bit_or ((a * 256 + b) * 2 ^ 16) (c * 256) ≡ (a * 65536 + b * 256 + c) * 2 ^ 8 =
      bit_or_disjoint 16 (a * 256 + b) (c * 256) (omega arith) ∙ omega arith in
    rw (ea, eb, ec, e1, e2)
      (bit_or_disjoint 8 (a * 65536 + b * 256 + c) d (omega arith) ∙ omega arith)

abbrev header : ℕ → ℕ → Bytes
header type len = type ∷ octet len 24 ∷ octet len 16 ∷ octet len 8 ∷ octet len 0 ∷ []

stated_length-header :
    (type len : ℕ) (rest : Bytes) → len < 2 ^ 32 → stated_length (header type len ++ rest) ≡ len
unfolding stated_length
stated_length-header type len rest h =
    rw (octet_lem len 24, octet_lem len 16, octet_lem len 8, octet_lem len 0)
      (join_four (shr len 24 % 256) (shr len 16 % 256) (shr len 8 % 256) (shr len 0 % 256)
          (omega arith) (omega arith) (omega arith) (omega arith)
        ∙ omega arith)

pub encoded :
    (type : ℕ) (payload : Bytes)
    → length payload ≤ max_frame_size
    → encode_derp_frame type payload ≡ ok (header type (length payload) ++ payload)
unfolding encode_derp_frame
encoded type payload h = ground arith

decoded :
    (type : ℕ) (payload : Bytes)
    → length payload ≤ max_frame_size
    → decode_derp_frame (header type (length payload) ++ payload)
      ≡ ok (record { type = type; payload = payload })
unfolding decode_derp_frame
decoded type payload h =
    rw (long_enough, stated_length-header type (length payload) payload (omega arith), exact)
  where
    long_enough : ltb (suc (suc (suc (suc (suc (length payload)))))) 5 ≡ false
    long_enough = ground arith

    exact : (suc (suc (suc (suc (suc (length payload))))) == 5 + length payload) ≡ true
    exact = ground arith

-- decode_derp_frame gives back the type and the payload that encode_derp_frame was given, for every
-- payload up to 10 MiB.
pub decode_derp_frame-encode_derp_frame :
    (type : ℕ) (payload : Bytes)
    → length payload ≤ max_frame_size
    → (encode_derp_frame type payload >>= decode_derp_frame)
      ≡ ok (record { type = type; payload = payload })
decode_derp_frame-encode_derp_frame type payload h =
    rw (encoded type payload h) (decoded type payload h)

stated_length-append : (xs ys : Bytes) → 5 ≤ length xs → stated_length (xs ++ ys) ≡ stated_length xs
unfolding stated_length
stated_length-append xs ys h = rw (
  get_or-append 1 xs ys 0 (omega arith),
  get_or-append 2 xs ys 0 (omega arith),
  get_or-append 3 xs ys 0 (omega arith),
  get_or-append 4 xs ys 0 (omega arith),
)

take-append_le : (n : ℕ) (xs ys : Bytes) → n ≤ length xs → take n (xs ++ ys) ≡ take n xs
take-append_le zero xs ys h = refl
take-append_le (suc n) [] ys h = absurd (omega arith)
take-append_le (suc n) (x ∷ xs) ys h = ap (λ t. x ∷ t) (take-append_le n xs ys (omega arith))

drop-append_le : (n : ℕ) (xs ys : Bytes) → n ≤ length xs → drop n (xs ++ ys) ≡ drop n xs ++ ys
drop-append_le zero xs ys h = refl
drop-append_le (suc n) [] ys h = absurd (omega arith)
drop-append_le (suc n) (x ∷ xs) ys h = drop-append_le n xs ys (omega arith)

-- The branches of take_buffered_frame.
module _ (b : Bytes) where
  take_short : length b < 5 → take_buffered_frame b ≡ ok (none, b)
  unfolding take_buffered_frame
  take_short h = ground arith

  take_partial :
      5 ≤ length b
      → stated_length b ≤ max_frame_size
      → length b < 5 + stated_length b
      → take_buffered_frame b ≡ ok (none, b)
  unfolding take_buffered_frame
  take_partial h1 h2 h3 = ground arith

  take_whole :
      stated_length b ≤ max_frame_size
      → 5 + stated_length b ≤ length b
      → take_buffered_frame b
        ≡ ok (
          some (record { type = get_or b 0 0; payload = take (stated_length b) (drop 5 b) }),
          drop (5 + stated_length b) b,
        )
  unfolding take_buffered_frame
  take_whole h1 h2 = ground arith

  take_cases :
      {f : DerpFrame} {r : Bytes}
      → take_buffered_frame b ≡ ok (some f, r)
      → (stated_length b ≤ max_frame_size) × (5 + stated_length b ≤ length b)
  unfolding take_buffered_frame
  take_cases e = ground arith

-- take_buffered_frame takes a frame that encode_derp_frame wrote from the front of the buffer and
-- leaves what follows it, for every payload up to 10 MiB.
pub take_buffered_frame-encode_derp_frame :
    (type : ℕ) (payload rest : Bytes)
    → length payload ≤ max_frame_size
    → (encode_derp_frame type payload >>= (λ bytes. take_buffered_frame (bytes ++ rest)))
      ≡ ok (some (record { type = type; payload = payload }), rest)
take_buffered_frame-encode_derp_frame type payload rest h = rw (encoded type payload h) whole
  where
    buffer : Bytes
    buffer = header type (length payload) ++ (payload ++ rest)

    len : stated_length buffer ≡ length payload
    len = stated_length-header type (length payload) (payload ++ rest) (omega arith)

    room : 5 + stated_length buffer ≤ length buffer
    room = omega (arith, len, length-append payload rest)

    five : (n : ℕ) → 5 + n ≡ suc (suc (suc (suc (suc n))))
    five n = omega arith

    whole : take_buffered_frame buffer ≡ ok (some (record { type = type; payload = payload }), rest)
    whole =
        take_whole buffer (omega (arith, len)) room
        ∙ rw (len, five (length payload), take-append payload rest, drop-append payload rest)

-- On any proper beginning of a frame that encode_derp_frame wrote, take_buffered_frame finds no
-- frame and keeps the buffer.
pub take_buffered_frame_partial :
    (type x : ℕ) (payload front back : Bytes)
    → length payload ≤ max_frame_size
    → encode_derp_frame type payload ≡ ok (front ++ (x ∷ back))
    → take_buffered_frame front ≡ ok (none, front)
take_buffered_frame_partial type x payload front back h e =
    elim (Bool-cases (ltb (length front) 5)) [
      | inl short ↦ take_short front (ground arith)
      | inr long ↦
          let five : 5 ≤ length front = ground arith in
          let len : stated_length front ≡ length payload =
            sym (stated_length-append front (x ∷ back) five)
            ∙ ap stated_length (sym whole)
            ∙ stated_length-header type (length payload) payload (omega arith) in
          take_partial front five (omega (arith, len))
            (omega (arith, len, ap (length {0}) whole, length-append front (x ∷ back)))
    ]
  where
    whole : header type (length payload) ++ payload ≡ front ++ (x ∷ back)
    whole = cc (encoded type payload h, e)

-- A frame that take_buffered_frame takes from a buffer is the same one when more bytes stand behind
-- the buffer, and those bytes stay in the buffer.
pub take_buffered_frame-append :
    (b c : Bytes) (f : DerpFrame) (r : Bytes)
    → take_buffered_frame b ≡ ok (some f, r)
    → take_buffered_frame (b ++ c) ≡ ok (some f, r ++ c)
take_buffered_frame-append b c f r e =
    let (small, room) = take_cases b e in
    let five : 5 ≤ length b = omega arith in
    let len : stated_length (b ++ c) ≡ stated_length b = stated_length-append b c five in
    take_whole (b ++ c) (omega (arith, len)) (omega (arith, len, length-append b c))
    ∙ same small room five len
  where
    longer : Result (Option DerpFrame × Bytes) → Result (Option DerpFrame × Bytes)
    longer (ok (g, q)) = ok (g, q ++ c)
    longer (err x) = err x

    same :
        stated_length b ≤ max_frame_size
        → 5 + stated_length b ≤ length b
        → 5 ≤ length b
        → stated_length (b ++ c) ≡ stated_length b
        → ◌≡◌ {A = Result (Option DerpFrame × Bytes)}
            (ok (
              some (record {
                type = get_or (b ++ c) 0 0;
                payload = take (stated_length (b ++ c)) (drop 5 (b ++ c));
              }),
              drop (5 + stated_length (b ++ c)) (b ++ c),
            ))
            (ok (some f, r ++ c))
    same small room five len =
        rw
          (
            len,
            get_or-append 0 b c 0 (omega arith),
            drop-append_le 5 b c five,
            take-append_le (stated_length b) (drop 5 b) c (omega (arith, length-drop 5 b)),
            drop-append_le (5 + stated_length b) b c room,
          )
          (ap longer (sym (take_whole b small room) ∙ e))
