-- ===== src/Protocol/Address/RoundTrip/Written.antt =====
-- What the address writer appends are bytes, and not none.
use tailcat_in_c.Common.{
  ℕ, zero, suc, ◌+◌, ◌^◌, ◌≤◌, ◌<◌, ◌≡◌, ◌≢◌, refl, sym, ap, ◌∙◌, Bool, true, false, not, ◌&&◌,
  ◌||◌, List, [], ◌∷◌, ◌++◌, map, Option, none, some, append-nil, arith, Bytes, codes, IsBytes,
  IsBytes-append, empty, length, Result, ok, err, runtime_error, ◌>>=◌, if◌then◌else◌,
}
use tailcat_in_c.Common
use tailcat_in_c.Protocol.Cbor.Int64.{nonzero}
use tailcat_in_c.Protocol.Cbor.Writer
use tailcat_in_c.Protocol.Cbor.Items.{
  head-IsBytes, text-IsBytes, bytes-IsBytes, integer-IsBytes, boolean-IsBytes,
}
use tailcat_in_c.Protocol.Types.{Key32, DerpNode, DerpRegion, ConnInfo, has_regions}
use tailcat_in_c.Protocol.Address.Encode.{
  when, write_node, write_nodes, write_region, write_regions, write_info, the_key, is_some,
}
use tailcat_in_c.Protocol.Address.RoundTrip.Entries.{when-IsBytes}
use tailcat_in_c.Protocol.Address.RoundTrip.NodeFields.{IsNode}
use tailcat_in_c.Protocol.Address.RoundTrip.Region.{IsNodes, IsRegion}
use tailcat_in_c.Protocol.Address.RoundTrip.InfoFields.{IsInfo, IsRegions, IsOptionalKey}

-- What is written are bytes.
field-IsBytes :
    (b : Bool) (key value : Bytes)
    → IsBytes key
    → IsBytes value
    → IsBytes (when b (Writer.text key ++ value))
field-IsBytes b key value hk hv =
    when-IsBytes b _ (IsBytes-append (Writer.text key) value (text-IsBytes key hk) hv)

write_node-IsBytes : (n : DerpNode) → IsNode n → IsBytes (write_node n)
unfolding write_node Writer.map_head
write_node-IsBytes n v = IsBytes-append _ _ (head-IsBytes 5 _ (omega arith)) (
    IsBytes-append _ _
      (field-IsBytes (not (empty n.name)) (codes "n") _ (omega arith)
        (text-IsBytes n.name v.name_text.0))
      (IsBytes-append _ _
        (field-IsBytes (nonzero n.region_id) (codes "i") _ (omega arith)
          (integer-IsBytes n.region_id))
        (IsBytes-append _ _
          (field-IsBytes (not (empty n.host_name)) (codes "h") _ (omega arith)
            (text-IsBytes n.host_name v.host_text.0))
          (IsBytes-append _ _
            (field-IsBytes (not (empty n.cert_name)) (codes "t") _ (omega arith)
              (text-IsBytes n.cert_name v.cert_text.0))
            (IsBytes-append _ _
              (field-IsBytes (not (empty n.ipv4)) (codes "4") _ (omega arith)
                (text-IsBytes n.ipv4 v.ipv4_text.0))
              (IsBytes-append _ _
                (field-IsBytes (not (empty n.ipv6)) (codes "6") _ (omega arith)
                  (text-IsBytes n.ipv6 v.ipv6_text.0))
                (IsBytes-append _ _
                  (field-IsBytes (nonzero n.stun_port) (codes "s") _ (omega arith)
                    (integer-IsBytes n.stun_port))
                  (IsBytes-append _ _
                    (field-IsBytes (nonzero n.derp_port) (codes "d") _ (omega arith)
                      (integer-IsBytes n.derp_port))
                    (field-IsBytes n.insecure_for_tests (codes "x") _ (omega arith)
                      (boolean-IsBytes true))))))))))

write_nodes-IsBytes : (ns : List DerpNode) → IsNodes ns → IsBytes (write_nodes ns)
unfolding write_nodes
write_nodes-IsBytes [] v = tt
write_nodes-IsBytes (n ∷ ns) v =
    IsBytes-append _ _ (write_node-IsBytes n v.0) (write_nodes-IsBytes ns v.1)

write_region-IsBytes : (r : DerpRegion) → IsRegion r → IsBytes (write_region r)
unfolding write_region Writer.map_head Writer.array
write_region-IsBytes r v = IsBytes-append _ _ (head-IsBytes 5 _ (omega arith)) (
    IsBytes-append _ _
      (field-IsBytes (nonzero r.region_id) (codes "i") _ (omega arith)
        (integer-IsBytes r.region_id))
      (IsBytes-append _ _
        (field-IsBytes (not (empty r.region_code)) (codes "c") _ (omega arith)
          (text-IsBytes r.region_code v.code_text.0))
        (IsBytes-append _ _
          (field-IsBytes (not (empty r.region_name)) (codes "m") _ (omega arith)
            (text-IsBytes r.region_name v.name_text.0))
          (field-IsBytes _ (codes "N") _ (omega arith) (
            IsBytes-append _ _ (head-IsBytes 4 (length r.nodes) (omega arith))
              (write_nodes-IsBytes r.nodes v.each_node))))))

write_regions-IsBytes : (rs : List DerpRegion) → IsRegions rs → IsBytes (write_regions rs)
unfolding write_regions
write_regions-IsBytes [] v = tt
write_regions-IsBytes (r ∷ rs) v =
    IsBytes-append _ _ (write_region-IsBytes r v.0) (write_regions-IsBytes rs v.1)

the_key-IsBytes : (k : Option Key32) → IsOptionalKey k → IsBytes (the_key k)
the_key-IsBytes none v = tt
the_key-IsBytes (some k) v = v.0

pub write_info-IsBytes : (i : ConnInfo) → IsInfo i → IsBytes (write_info i)
unfolding write_info Writer.map_head Writer.array
write_info-IsBytes i v = IsBytes-append _ _ (head-IsBytes 5 _ (omega arith)) (
    IsBytes-append _ _
      (field-IsBytes true (codes "p") _ (omega arith)
        (bytes-IsBytes i.server_public v.public_key.0))
      (IsBytes-append _ _
        (field-IsBytes (is_some i.server_disco_public) (codes "k") _ (omega arith)
          (bytes-IsBytes _ (the_key-IsBytes i.server_disco_public v.disco_key)))
        (IsBytes-append _ _
          (field-IsBytes (is_some i.preshared_key) (codes "q") _ (omega arith)
            (bytes-IsBytes _ (the_key-IsBytes i.preshared_key v.psk_key)))
          (IsBytes-append _ _
            (field-IsBytes (has_regions i.regions) (codes "r") _ (omega arith) (
              IsBytes-append _ _ (head-IsBytes 4 (length i.regions) (omega arith))
                (write_regions-IsBytes i.regions v.each_region)))
            (field-IsBytes (nonzero i.region_id) (codes "i") _ (omega arith)
              (integer-IsBytes i.region_id))))))

head-nonempty : (major v : ℕ) → 0 < length (Writer.head major v)
unfolding Writer.head
head-nonempty major v = ground arith

pub write_info-nonempty : (i : ConnInfo) → write_info i ≢ []
unfolding write_info Writer.map_head
write_info-nonempty i e =
    absurd (
      omega (arith, head-nonempty 5 _, Common.length-append (Writer.head 5 _) _, ap (length {0}) e))
