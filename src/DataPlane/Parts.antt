-- ===== src/DataPlane/Parts.antt =====
-- What the data planes are built on: WireGuardPeerEngine of include/tailcat/wireguard_engine.hpp and
-- LwipStack of src/lwip_stack.cpp around lwIP.
use tailcat_in_c.Common.{
  ◌-◌, ◌^◌, Bool, ◌||◌, not, Option, none, some, Bytes, empty, length, get_or, ltb, shr, ◌==◌,
  if◌then◌else◌, Error, Result, length_error,
}
use tailcat_in_c.Protocol.Types.{Key32}

pub record WireGuardPacketResult : Type 0 where
  pub outbound : Bytes
  pub plaintext_ip : Option Bytes
  pub session_established : Bool

-- The engine of one peer, over a state `W`. An operation leaves a new state, also when it throws.
pub record WireGuardPeerEngine (W : Type 0) : Type 0 where
  pub create : Key32 → Option Key32 → Result W
  pub create_handshake_initiation : W → Result Bytes × W
  pub handle_packet : Bytes → W → WireGuardPacketResult × W
  pub encrypt_ip_packet : Bytes → W → Result Bytes × W
  pub session_established : W → Bool

-- What lwIP does when it is called, over a state `K`: it hands packets to the output callback one
-- after the other, and each time learns whether that worked.
pub data Activity (K : Type 0) : Type 0 where
  returns : K → Activity K
  throws : Error → K → Activity K
  outputs : Bytes → (Bool → Activity K) → Activity K

-- `allocate` and `ip6_input` are `pbuf_alloc` with `pbuf_take`, and lwIP's input; `check_timeouts`
-- is `sys_check_timeouts`.
pub record LwIp (K : Type 0) : Type 0 where
  pub allocate : Bytes → K → Option Error
  pub ip6_input : Bytes → K → Activity K
  pub check_timeouts : K → Activity K

module _ {K : Type 0} (lwip : LwIp K) where
  -- LwipStack::input_ip
  unfoldable pub input_ip : Bytes → K → Activity K
  input_ip packet k =
      if empty packet || not (shr (get_or packet 0 0) 4 == 6)
      then returns k
      else if ltb (2 ^ 16 - 1) (length packet)
      then throws (length_error "IPv6 packet exceeds lwIP pbuf size") k
      else allocated (lwip.allocate packet k)
    where
      allocated : Option Error → Activity K
      allocated none = lwip.ip6_input packet k
      allocated (some e) = throws e k
