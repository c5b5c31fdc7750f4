-- ===== src/Derp.antt =====
-- src/derp.cpp: DERP frames, the greeting and the packets that they carry; and take_buffered_frame of
-- src/derp_http.cpp, which cuts frames out of a byte stream.
pub mod FrameType
pub mod Frame
pub mod Client
pub mod Transport
