-- ===== src/Protocol/Cbor.antt =====
-- CborReader and CborWriter of src/protocol.cpp. A reader's state is `data_` from `pos_` on, and a
-- writer's operation is the bytes that it appends to `out_`.
pub mod Int64
pub mod Reader
pub mod Writer
pub mod RoundTrip
pub mod Items
pub mod Skip
pub mod Total
