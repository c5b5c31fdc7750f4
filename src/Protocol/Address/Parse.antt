-- ===== src/Protocol/Address/Parse.antt =====
-- key32, read_node, read_region and parse_tailcat_addr of src/protocol.cpp. `reserve` is left out: it
-- changes no value, and a count that no memory holds ends in an exception either way.
use Prim.Native.String.{String, ◌++◌ as string_append}
use tailcat_in_c.Common.{
  ℕ, zero, suc, Bool, true, false, ◌&&◌, ◌||◌, not, List, [], ◌∷◌, ◌++◌, map, Option, none, some,
  Bytes, codes, bytes_eq, starts_with, drop, empty, length, ltb, ◌==◌, if◌then◌else◌, Result, Error,
  ok, err, runtime_error, invalid_argument, length_error, out_of_fuel, throw_if,
}
use tailcat_in_c.Common
use tailcat_in_c.Protocol.Base64.{base64url_decode}
use tailcat_in_c.Protocol.Cbor.Int64.{ℤ, nonzero}
use tailcat_in_c.Protocol.Cbor.Reader.{
  Reader, pure, parse_error, ◌>>=◌, ◌>>◌, map_size, array_size, text, bytes, integer, boolean, skip,
  for_count,
}
use tailcat_in_c.Protocol.Types.{
  Key32, all_zero, DerpNode, default_node, DerpRegion, default_region, ConnInfo, default_info,
  is_zero_key, has_regions,
}

unfoldable pub key32 : String → Reader Key32
key32 field = do
  raw ← bytes
  if length raw == 32
      then pure raw
      else parse_error
          (string_append "tailcat address: " (string_append field " must be exactly 32 bytes"))

-- One round of a loop over a map: the key, and what the code does with it.
unfoldable pub entry : {S : Type 0} → (Bytes → S → Reader S) → S → Reader S
entry field s = do key ← text; field key s

unfoldable pub node_field : Bytes → DerpNode → Reader DerpNode
node_field key n =
    if bytes_eq key (codes "n")
    then text >>= (λ v. pure (record n { name = v }))
    else if bytes_eq key (codes "i")
    then integer >>= (λ v. pure (record n { region_id = v }))
    else if bytes_eq key (codes "h")
    then text >>= (λ v. pure (record n { host_name = v }))
    else if bytes_eq key (codes "t")
    then text >>= (λ v. pure (record n { cert_name = v }))
    else if bytes_eq key (codes "4")
    then text >>= (λ v. pure (record n { ipv4 = v }))
    else if bytes_eq key (codes "6")
    then text >>= (λ v. pure (record n { ipv6 = v }))
    else if bytes_eq key (codes "s")
    then integer >>= (λ v. pure (record n { stun_port = v }))
    else if bytes_eq key (codes "d")
    then integer >>= (λ v. pure (record n { derp_port = v }))
    else if bytes_eq key (codes "x")
    then boolean >>= (λ v. pure (record n { insecure_for_tests = v }))
    else skip >> pure n

unfoldable pub read_node : Reader DerpNode
read_node = do count ← map_size; for_count count (entry node_field) default_node

-- `region.nodes.push_back(read_node(r))`
unfoldable pub push_node : DerpRegion → Reader DerpRegion
push_node region = do node ← read_node; pure (record region { nodes = region.nodes ++ (node ∷ []) })

unfoldable pub region_field : Bytes → DerpRegion → Reader DerpRegion
region_field key region =
    if bytes_eq key (codes "i")
    then integer >>= (λ v. pure (record region { region_id = v }))
    else if bytes_eq key (codes "c")
    then text >>= (λ v. pure (record region { region_code = v }))
    else if bytes_eq key (codes "m")
    then text >>= (λ v. pure (record region { region_name = v }))
    else if bytes_eq key (codes "N")
    then array_size >>= (λ n. for_count n push_node region)
    else skip >> pure region

-- A node without a region takes that of the region it stands in.
unfoldable pub inherit_region : ℤ → DerpNode → DerpNode
inherit_region id node = if nonzero node.region_id then node else record node { region_id = id }

unfoldable pub read_region : Reader DerpRegion
read_region = do
  count ← map_size
  region ← for_count count (entry region_field) default_region
  pure (record region { nodes = map (inherit_region region.region_id) region.nodes })

-- `info` and `have_public`.
pub record ParseState : Type 0 where
  pub info : ConnInfo
  pub have_public : Bool

unfoldable pub push_region : ConnInfo → Reader ConnInfo
push_region info = do
  region ← read_region
  pure (record info { regions = info.regions ++ (region ∷ []) })

-- Up to one region at a time.
unfoldable pub read_regions : ConnInfo → Reader ConnInfo
read_regions info = do
  n ← array_size
  if ltb 1 n
      then parse_error "tailcat address: more than one embedded DERP region"
      else for_count n push_region info

unfoldable pub info_field : Bytes → ParseState → Reader ParseState
info_field key s =
    if bytes_eq key (codes "p")
    then key32 "ServerPublic"
      >>= (λ k. pure (record { info = record s.info { server_public = k }; have_public = true }))
    else if bytes_eq key (codes "k")
    then key32 "ServerDiscoPublic"
      >>= (λ k. pure (record s { info = record s.info { server_disco_public = some k } }))
    else if bytes_eq key (codes "q")
    then key32 "PresharedKey"
      >>= (λ k. pure (record s { info = record s.info { preshared_key = some k } }))
    else if bytes_eq key (codes "r")
    then read_regions s.info >>= (λ i. pure (record s { info = i }))
    else if bytes_eq key (codes "i")
    then integer >>= (λ v. pure (record s { info = record s.info { region_id = v } }))
    else skip >> pure s

-- `try { … } catch (const std::exception& e) { parse_error("base64 decode: " + e.what()); }`
unfoldable pub rethrow : {A : Type 0} → String → Result A → Result A
rethrow prefix (ok a) = ok a
rethrow prefix (err (runtime_error m)) = err (runtime_error (string_append prefix m))
rethrow prefix (err (invalid_argument m)) = err (runtime_error (string_append prefix m))
rethrow prefix (err (length_error m)) = err (runtime_error (string_append prefix m))
rethrow prefix (err out_of_fuel) = err out_of_fuel

-- `if (!info.regions.empty() && info.region_id == 0) info.region_id = info.regions.front().region_id;`
unfoldable pub default_region_id : ConnInfo → List DerpRegion → ConnInfo
default_region_id info [] = info
default_region_id info (region ∷ _) =
    if nonzero info.region_id then info else record info { region_id = region.region_id }

-- The checks behind the loop, over what the loop left.
unfoldable pub check_info : ParseState → Bytes → Result ConnInfo
check_info s rest =
    Common.◌>>◌ (throw_if (not (empty rest)) (runtime_error "tailcat address: trailing CBOR data"))
      (Common.◌>>◌
        (throw_if (not s.have_public || all_zero s.info.server_public)
          (runtime_error "tailcat address: missing or zero ServerPublic"))
        (Common.◌>>◌
          (throw_if (is_zero_key s.info.server_disco_public)
            (runtime_error "tailcat address: zero ServerDiscoPublic"))
          (let info = default_region_id s.info s.info.regions in
            Common.◌>>◌
              (throw_if (not (nonzero info.region_id) && not (has_regions info.regions))
                (runtime_error "tailcat address: missing DERP region"))
              (ok info))))

unfoldable pub read_info : Reader ParseState
read_info = do
  count ← map_size
  for_count count (entry info_field) (record { info = default_info; have_public = false })

unfoldable pub parse_tailcat_addr : Bytes → Result ConnInfo
parse_tailcat_addr addr =
    Common.◌>>◌
      (throw_if (not (starts_with addr (codes "tc")))
        (runtime_error "tailcat address: doesn't start with \"tc\""))
      (Common.◌>>=◌ (rethrow "tailcat address: base64 decode: " (base64url_decode (drop 2 addr)))
        (λ raw. Common.◌>>=◌ (read_info raw) (λ (s, rest). check_info s rest)))
