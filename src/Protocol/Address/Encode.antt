-- ===== src/Protocol/Address/Encode.antt =====
-- write_node, write_region and encode_tailcat_addr of src/protocol.cpp.
use tailcat_in_c.Common.{
  ℕ, ◌+◌, Bool, true, false, not, List, [], ◌∷◌, ◌++◌, Option, none, some, Bytes, codes, empty,
  length, if◌then◌else◌, Result, ok, runtime_error, throw_if, ◌>>◌,
}
use tailcat_in_c.Protocol.Base64.{base64url_encode}
use tailcat_in_c.Protocol.Cbor.Int64.{nonzero}
use tailcat_in_c.Protocol.Cbor.Writer.{map_head, array, text, bytes, integer, boolean}
use tailcat_in_c.Protocol.Types.{
  Key32, all_zero, DerpNode, DerpRegion, ConnInfo, is_zero_key, has_regions,
}

-- `if (b) ++count;` and `if (b) { w.text(key); … }`
abbrev pub flag : Bool → ℕ
flag b = if b then 1 else 0

abbrev pub when : Bool → Bytes → Bytes
when b item = if b then item else []

unfoldable pub write_node : DerpNode → Bytes
write_node n =
    map_head (
      flag (not (empty n.name))
      + flag (nonzero n.region_id)
      + flag (not (empty n.host_name))
      + flag (not (empty n.cert_name))
      + flag (not (empty n.ipv4))
      + flag (not (empty n.ipv6))
      + flag (nonzero n.stun_port)
      + flag (nonzero n.derp_port)
      + flag n.insecure_for_tests)
    ++ (when (not (empty n.name)) (text (codes "n") ++ text n.name)
        ++ (when (nonzero n.region_id) (text (codes "i") ++ integer n.region_id)
            ++ (when (not (empty n.host_name)) (text (codes "h") ++ text n.host_name)
                ++ (when (not (empty n.cert_name)) (text (codes "t") ++ text n.cert_name)
                    ++ (when (not (empty n.ipv4)) (text (codes "4") ++ text n.ipv4)
                        ++ (when (not (empty n.ipv6)) (text (codes "6") ++ text n.ipv6)
                            ++ (when (nonzero n.stun_port) (text (codes "s") ++ integer n.stun_port)
                                ++ (when (nonzero n.derp_port)
                                      (text (codes "d") ++ integer n.derp_port)
                                    ++ when n.insecure_for_tests
                                        (text (codes "x") ++ boolean true)))))))))

-- `for (const auto& n : r.nodes) write_node(w, n);`
unfoldable pub write_nodes : List DerpNode → Bytes
write_nodes [] = []
write_nodes (n ∷ ns) = write_node n ++ write_nodes ns

abbrev pub has_nodes : List DerpNode → Bool
has_nodes [] = false
has_nodes (_ ∷ _) = true

unfoldable pub write_region : DerpRegion → Bytes
write_region r =
    map_head (
      flag (nonzero r.region_id)
      + flag (not (empty r.region_code))
      + flag (not (empty r.region_name))
      + flag (has_nodes r.nodes))
    ++ (when (nonzero r.region_id) (text (codes "i") ++ integer r.region_id)
        ++ (when (not (empty r.region_code)) (text (codes "c") ++ text r.region_code)
            ++ (when (not (empty r.region_name)) (text (codes "m") ++ text r.region_name)
                ++ when (has_nodes r.nodes)
                    (text (codes "N") ++ (array (length r.nodes) ++ write_nodes r.nodes)))))

unfoldable pub write_regions : List DerpRegion → Bytes
write_regions [] = []
write_regions (r ∷ rs) = write_region r ++ write_regions rs

abbrev pub is_some : Option Key32 → Bool
is_some none = false
is_some (some _) = true

-- `*key`
abbrev pub the_key : Option Key32 → Key32
the_key none = []
the_key (some k) = k

unfoldable pub write_info : ConnInfo → Bytes
write_info info =
    map_head (
      1
      + flag (is_some info.server_disco_public)
      + flag (is_some info.preshared_key)
      + flag (has_regions info.regions)
      + flag (nonzero info.region_id))
    ++ ((text (codes "p") ++ bytes info.server_public)
        ++ (when (is_some info.server_disco_public)
              (text (codes "k") ++ bytes (the_key info.server_disco_public))
            ++ (when (is_some info.preshared_key)
                  (text (codes "q") ++ bytes (the_key info.preshared_key))
                ++ (when (has_regions info.regions) (
                      text (codes "r")
                      ++ (array (length info.regions) ++ write_regions info.regions))
                    ++ when (nonzero info.region_id)
                        (text (codes "i") ++ integer info.region_id)))))

unfoldable pub encode_tailcat_addr : ConnInfo → Result Bytes
encode_tailcat_addr info = do
  throw_if (all_zero info.server_public) (runtime_error "cannot encode zero ServerPublic")
  throw_if (is_zero_key info.server_disco_public)
      (runtime_error "cannot encode zero ServerDiscoPublic")
  ok (codes "tc" ++ base64url_encode (write_info info))
