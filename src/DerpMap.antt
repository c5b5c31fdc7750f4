-- ===== src/DerpMap.antt =====
-- src/derp_map.cpp: the map of DERP regions, from its JSON text to the node that is connected to. The download, the
-- JSON parser and std::stoll are parameters. std::sort is written as an insertion sort.
pub mod Usable
pub mod Selection
use tailcat_in_c.Common.{
  ℕ, leb, ◌==◌, Bool, true, false, ◌&&◌, ◌||◌, not, List, [], ◌∷◌, ◌++◌, Option, none, some, Bytes,
  codes, empty, if◌then◌else◌, Result, ok, err, runtime_error, ◌>>=◌, ◌>>◌, throw_if,
}
use tailcat_in_c.Protocol.Types.{DerpNode, DerpRegion}
use tailcat_in_c.Protocol.Cbor.Int64.{ℤ, pos, negsuc, nonzero}
use tailcat_in_c.Json.{
  Json, null, real, boolean, integer, text, array, object, Items, no_items, item, Fields, no_fields,
  field, find_field,
}

abbrev pub as_integer : ℤ → Option Json → ℤ
as_integer fallback (some (integer n)) = n
as_integer fallback _ = fallback

abbrev pub as_string : Option Json → Bytes
as_string (some (text value)) = value
as_string _ = []

abbrev pub as_bool : Option Json → Bool
as_bool (some (boolean value)) = value
as_bool _ = false

unfoldable pub integer_or : Fields → Bytes → ℤ → ℤ
integer_or j key fallback = as_integer fallback (find_field key j)

unfoldable pub string_or : Fields → Bytes → Bytes
string_or j key = as_string (find_field key j)

unfoldable pub bool_or : Fields → Bytes → Bool
bool_or j key = as_bool (find_field key j)

abbrev pub parse_node : Fields → ℤ → DerpNode
parse_node nj region_id = record {
  name = string_or nj (codes "Name");
  region_id = integer_or nj (codes "RegionID") region_id;
  host_name = string_or nj (codes "HostName");
  cert_name = string_or nj (codes "CertName");
  ipv4 = string_or nj (codes "IPv4");
  ipv6 = string_or nj (codes "IPv6");
  stun_port = integer_or nj (codes "STUNPort") (pos 0);
  derp_port = integer_or nj (codes "DERPPort") (pos 0);
  insecure_for_tests = bool_or nj (codes "InsecureForTests");
}

-- A node without a host name is left out.
abbrev pub with_host : DerpNode → List DerpNode → List DerpNode
with_host node nodes = if not (empty node.host_name) then node ∷ nodes else nodes

-- The nodes that are objects and not STUNOnly.
unfoldable pub parse_nodes : ℤ → Items → List DerpNode
parse_nodes region_id no_items = []
parse_nodes region_id (item (object nj) items) =
    let rest = parse_nodes region_id items in
    if bool_or nj (codes "STUNOnly") then rest else with_host (parse_node nj region_id) rest
parse_nodes region_id (item _ items) = parse_nodes region_id items

abbrev pub nodes_of : ℤ → Option Json → List DerpNode
nodes_of region_id (some (array items)) = parse_nodes region_id items
nodes_of region_id _ = []

unfoldable pub parse_region : Fields → ℤ → DerpRegion
parse_region j fallback_id = record {
  region_id = integer_or j (codes "RegionID") fallback_id;
  region_code = string_or j (codes "RegionCode");
  region_name = string_or j (codes "RegionName");
  nodes = nodes_of (integer_or j (codes "RegionID") fallback_id) (find_field (codes "Nodes") j);
}

abbrev pub is_none : {A : Type 0} → List A → Bool
is_none [] = true
is_none (x ∷ xs) = false

abbrev pub if_usable : DerpRegion → List DerpRegion → List DerpRegion
if_usable region regions =
    if nonzero region.region_id && not (is_none region.nodes) then region ∷ regions else regions

-- `a <= b` of std::int64_t.
abbrev pub at_most : ℤ → ℤ → Bool
at_most (pos a) (pos b) = leb a b
at_most (pos a) (negsuc b) = false
at_most (negsuc a) (pos b) = true
at_most (negsuc a) (negsuc b) = leb b a

abbrev pub insert_region : DerpRegion → List DerpRegion → List DerpRegion
insert_region new [] = new ∷ []
insert_region new (region ∷ regions) =
    let rest = insert_region new regions in
    if at_most new.region_id region.region_id then new ∷ region ∷ regions else region ∷ rest

unfoldable pub sort_regions : List DerpRegion → List DerpRegion
sort_regions [] = []
sort_regions (region ∷ regions) = insert_region region (sort_regions regions)

module _ (stoll : Bytes → Option ℤ) where
  abbrev pub add_region : Option ℤ → Json → List DerpRegion → List DerpRegion
  add_region (some fallback_id) (object j) regions = if_usable (parse_region j fallback_id) regions
  add_region _ _ regions = regions

  -- The loop over the members of Regions.
  unfoldable pub regions_loop : Fields → List DerpRegion
  regions_loop no_fields = []
  regions_loop (field key value fields) = add_region (stoll key) value (regions_loop fields)

  abbrev pub regions_of : Json → Option Json
  regions_of (object root) = find_field (codes "Regions") root
  regions_of _ = none

  abbrev pub map_of : Option Json → Result (List DerpRegion)
  map_of (some (object regions)) =
      throw_if (is_none (sort_regions (regions_loop regions)))
        (runtime_error "DERP map contains no usable relay regions")
      >> ok (sort_regions (regions_loop regions))
  map_of _ = err (runtime_error "DERP map has no Regions object")

  -- `download` is the body of the response, and `parse` the JSON parser.
  unfoldable pub fetch_derp_map : (Bytes → Result Json) → Result Bytes → Result (List DerpRegion)
  fetch_derp_map parse download =
      download >>= (λ body. parse body >>= (λ root. map_of (regions_of root)))

unfoldable pub select_derp_region : List DerpRegion → Result DerpRegion
select_derp_region [] = err (runtime_error "cannot select from an empty DERP map")
select_derp_region (region ∷ regions) = ok region

abbrev pub same_id : ℤ → ℤ → Bool
same_id (pos a) (pos b) = a == b
same_id (negsuc a) (negsuc b) = a == b
same_id _ _ = false

unfoldable pub region_by_id : List DerpRegion → ℤ → Result DerpRegion
region_by_id [] region_id = err (runtime_error "DERP region is not in map")
region_by_id (region ∷ regions) region_id =
    let rest = region_by_id regions region_id in
    if same_id region.region_id region_id then ok region else rest

abbrev pub first_node : List DerpNode → Result DerpNode
first_node [] = err (runtime_error "DERP region has no relay nodes")
first_node (node ∷ nodes) = ok node

unfoldable pub primary_derp_node : DerpRegion → Result DerpNode
primary_derp_node region = first_node region.nodes
