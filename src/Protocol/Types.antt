-- ===== src/Protocol/Types.antt =====
-- The structures of include/tailcat/protocol.hpp.
use tailcat_in_c.Common.{
  Bool, true, false, List, [], ◌∷◌, Option, none, some, Bytes, replicate, ◌==◌, if◌then◌else◌,
}
use tailcat_in_c.Protocol.Cbor.Int64.{ℤ, pos}

-- `std::array<std::uint8_t, 32>`: a byte string of length 32.
abbrev pub Key32 : Type 0
Key32 = Bytes

abbrev pub zero_key : Key32
zero_key = replicate 32 0

unfoldable pub all_zero : Key32 → Bool
all_zero [] = true
all_zero (b ∷ bs) = if b == 0 then all_zero bs else false

pub record DerpNode : Type 0 where
  pub name : Bytes
  pub region_id : ℤ
  pub host_name : Bytes
  pub cert_name : Bytes
  pub ipv4 : Bytes
  pub ipv6 : Bytes
  pub stun_port : ℤ
  pub derp_port : ℤ
  pub insecure_for_tests : Bool

abbrev pub default_node : DerpNode
default_node = record {
  name = [];
  region_id = pos 0;
  host_name = [];
  cert_name = [];
  ipv4 = [];
  ipv6 = [];
  stun_port = pos 0;
  derp_port = pos 0;
  insecure_for_tests = false;
}

pub record DerpRegion : Type 0 where
  pub region_id : ℤ
  pub region_code : Bytes
  pub region_name : Bytes
  pub nodes : List DerpNode

abbrev pub default_region : DerpRegion
default_region = record { region_id = pos 0; region_code = []; region_name = []; nodes = [] }

pub record ConnInfo : Type 0 where
  pub server_public : Key32
  pub server_disco_public : Option Key32
  pub preshared_key : Option Key32
  pub regions : List DerpRegion
  pub region_id : ℤ

abbrev pub default_info : ConnInfo
default_info = record {
  server_public = zero_key;
  server_disco_public = none;
  preshared_key = none;
  regions = [];
  region_id = pos 0;
}

-- `key && all_zero(*key)`
abbrev pub is_zero_key : Option Key32 → Bool
is_zero_key none = false
is_zero_key (some k) = all_zero k

-- `!regions.empty()`
abbrev pub has_regions : List DerpRegion → Bool
has_regions [] = false
has_regions (_ ∷ _) = true
