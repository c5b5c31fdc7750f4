-- ===== src/Tests/Derp.antt =====
-- Frames in a buffer.
use tailcat_in_c.Common.{◌≡◌, refl, [], ◌∷◌, ◌++◌, none, some, arith, ok, ◌>>=◌}
use tailcat_in_c.Derp.Frame.{
  DerpFrame, octet, encode_derp_frame, stated_length, take_buffered_frame,
}
use tailcat_in_c.Derp.Frame.RoundTrip.{
  take_buffered_frame-encode_derp_frame, take_buffered_frame_partial, take_buffered_frame-append,
}

abbrev pong : DerpFrame
pong = record { type = 0x13; payload = 1 ∷ 2 ∷ [] }

take_buffered_frame-encode_derp_frame_example :
    (encode_derp_frame 0x13 (1 ∷ 2 ∷ []) >>= (λ bytes. take_buffered_frame (bytes ++ (6 ∷ 0 ∷ []))))
    ≡ ok (some pong, 6 ∷ 0 ∷ [])
take_buffered_frame-encode_derp_frame_example =
    take_buffered_frame-encode_derp_frame 0x13 (1 ∷ 2 ∷ []) (6 ∷ 0 ∷ []) (omega arith)

encode_run : encode_derp_frame 0x13 (1 ∷ 2 ∷ []) ≡ ok (0x13 ∷ 0 ∷ 0 ∷ 0 ∷ 2 ∷ 1 ∷ 2 ∷ [])
unfolding encode_derp_frame octet
encode_run = refl

take_run : take_buffered_frame (0x13 ∷ 0 ∷ 0 ∷ 0 ∷ 2 ∷ 1 ∷ 2 ∷ []) ≡ ok (some pong, [])
unfolding take_buffered_frame stated_length
take_run = refl

take_buffered_frame_partial_example :
    take_buffered_frame (0x13 ∷ 0 ∷ 0 ∷ 0 ∷ 2 ∷ 1 ∷ []) ≡ ok (none, 0x13 ∷ 0 ∷ 0 ∷ 0 ∷ 2 ∷ 1 ∷ [])
take_buffered_frame_partial_example =
    take_buffered_frame_partial 0x13 2 (1 ∷ 2 ∷ []) (0x13 ∷ 0 ∷ 0 ∷ 0 ∷ 2 ∷ 1 ∷ []) [] (omega arith)
      encode_run

take_buffered_frame-append_example :
    take_buffered_frame ((0x13 ∷ 0 ∷ 0 ∷ 0 ∷ 2 ∷ 1 ∷ 2 ∷ []) ++ (6 ∷ [])) ≡ ok (some pong, 6 ∷ [])
take_buffered_frame-append_example =
    take_buffered_frame-append (0x13 ∷ 0 ∷ 0 ∷ 0 ∷ 2 ∷ 1 ∷ 2 ∷ []) (6 ∷ []) pong [] take_run
