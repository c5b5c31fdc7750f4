-- ===== src/Derp/Frame.antt =====
-- Frames of src/derp.cpp and include/tailcat/derp.hpp. A frame type is a byte: the program casts any
-- byte to DerpFrameType.
pub mod RoundTrip
use tailcat_in_c.Common.{
  ℕ, zero, suc, ◌+◌, ◌-◌, ◌*◌, ◌/◌, ◌%◌, ◌^◌, bit_and, bit_or, shl, shr, Bool, true, false, ◌&&◌,
  ◌||◌, not, List, [], ◌∷◌, ◌++◌, Option, none, some, Bytes, bytes_eq, length, get_or, take, drop,
  replicate, ltb, leb, ◌==◌, if◌then◌else◌, Result, ok, err, runtime_error, throw_if, ◌>>=◌, ◌>>◌,
}
use tailcat_in_c.Protocol.Types.{Key32}

pub record DerpFrame : Type 0 where
  pub type : ℕ
  pub payload : Bytes

-- `static_cast<std::uint8_t>((len >> k) & 0xffU)`
unfoldable pub octet : ℕ → ℕ → ℕ
octet len k = bit_and (shr len k) 0xff % 256

abbrev pub max_frame_size : ℕ
max_frame_size = 10 * 1024 * 1024

unfoldable pub encode_derp_frame : ℕ → Bytes → Result Bytes
encode_derp_frame type payload = do
  throw_if (ltb max_frame_size (length payload) || ltb (2 ^ 32 - 1) (length payload))
      (runtime_error "unreasonably large DERP frame")
  let len = length payload
  ok (type ∷ octet len 24 ∷ octet len 16 ∷ octet len 8 ∷ octet len 0 ∷ payload)

-- The length that bytes 1 to 4 of a header state.
unfoldable pub stated_length : Bytes → ℕ
stated_length frame =
    bit_or
      (bit_or (bit_or (shl 32 (get_or frame 1 0) 24) (shl 32 (get_or frame 2 0) 16))
        (shl 32 (get_or frame 3 0) 8))
      (get_or frame 4 0)

unfoldable pub decode_derp_frame : Bytes → Result DerpFrame
decode_derp_frame frame = do
  throw_if (ltb (length frame) 5) (runtime_error "short DERP frame header")
  throw_if (not (length frame == 5 + stated_length frame))
      (runtime_error "DERP frame length mismatch")
  ok (record { type = get_or frame 0 0; payload = drop 5 frame })

-- `take_buffered_frame`: the frame, if a whole one has arrived, and the buffer left. The program's
-- test of `payload_size` against the largest `size_t` cannot fail below the limit.
unfoldable pub take_buffered_frame : Bytes → Result (Option DerpFrame × Bytes)
take_buffered_frame buffer =
    if ltb (length buffer) 5
    then ok (none, buffer)
    else (let len = stated_length buffer in
        if ltb max_frame_size len
        then err (runtime_error "DERP frame exceeds safety limit")
        else (let frame_size = 5 + len in
            if ltb (length buffer) frame_size
            then ok (none, buffer)
            else ok (
              some (record { type = get_or buffer 0 0; payload = take len (drop 5 buffer) }),
              drop frame_size buffer,
            )))
