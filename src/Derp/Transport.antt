-- ===== src/Derp/Transport.antt =====
-- DerpTransport of include/tailcat/derp_transport.hpp. A transport is known by its answers: each may
-- depend on all the calls before it, which stand with the latest one first.
use tailcat_in_c.Common.{ℕ, List, Option, Bytes, Result}
use tailcat_in_c.Protocol.Types.{Key32}
use tailcat_in_c.Derp.Frame.{DerpFrame}

pub data Call : Type 0 where
  send_packet : Key32 → Bytes → Call
  send_pong : Bytes → Call
  receive_for : ℕ → Call

pub record DerpTransport : Type 0 where
  pub sends : List Call → Result (Unit {0})
  pub receives : List Call → Result (Option DerpFrame)
