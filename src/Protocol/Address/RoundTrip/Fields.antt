-- ===== src/Protocol/Address/RoundTrip/Fields.antt =====
-- One field of a relay node, read by its key.
use tailcat_in_c.Common.{◌^◌, ◌<◌, ◌≡◌, true, ◌++◌, Bytes, codes, length, ok}
use tailcat_in_c.Protocol.Cbor.Int64.{ℤ, IsInt64}
use tailcat_in_c.Protocol.Cbor.Writer
use tailcat_in_c.Protocol.Cbor.Items.{text-text, integer-integer, boolean-boolean}
use tailcat_in_c.Protocol.Types.{DerpNode}
use tailcat_in_c.Protocol.Address.Parse.{node_field}

-- Each field by its key.
module _ (n : DerpNode) (rest : Bytes) where
  module _ (v : Bytes) (h : length v < 2 ^ 64) where
    pub name_field :
        node_field (codes "n") n (Writer.text v ++ rest) ≡ ok (record n { name = v }, rest)
    unfolding node_field
    name_field = rw (text-text v rest h)

    pub host_field :
        node_field (codes "h") n (Writer.text v ++ rest) ≡ ok (record n { host_name = v }, rest)
    unfolding node_field
    host_field = rw (text-text v rest h)

    pub cert_field :
        node_field (codes "t") n (Writer.text v ++ rest) ≡ ok (record n { cert_name = v }, rest)
    unfolding node_field
    cert_field = rw (text-text v rest h)

    pub ipv4_field :
        node_field (codes "4") n (Writer.text v ++ rest) ≡ ok (record n { ipv4 = v }, rest)
    unfolding node_field
    ipv4_field = rw (text-text v rest h)

    pub ipv6_field :
        node_field (codes "6") n (Writer.text v ++ rest) ≡ ok (record n { ipv6 = v }, rest)
    unfolding node_field
    ipv6_field = rw (text-text v rest h)

  module _ (z : ℤ) (h : IsInt64 z) where
    pub region_field :
        node_field (codes "i") n (Writer.integer z ++ rest) ≡ ok (record n { region_id = z }, rest)
    unfolding node_field
    region_field = rw (integer-integer z rest h)

    pub stun_field :
        node_field (codes "s") n (Writer.integer z ++ rest) ≡ ok (record n { stun_port = z }, rest)
    unfolding node_field
    stun_field = rw (integer-integer z rest h)

    pub derp_field :
        node_field (codes "d") n (Writer.integer z ++ rest) ≡ ok (record n { derp_port = z }, rest)
    unfolding node_field
    derp_field = rw (integer-integer z rest h)

  pub insecure_field :
      node_field (codes "x") n (Writer.boolean true ++ rest)
      ≡ ok (record n { insecure_for_tests = true }, rest)
  unfolding node_field
  insecure_field = rw (boolean-boolean true rest)
