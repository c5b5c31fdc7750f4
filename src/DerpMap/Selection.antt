-- ===== src/DerpMap/Selection.antt =====
-- What src/derp_map.cpp selects of a map that it fetched.
use tailcat_in_c.Common.{
  ◌≡◌, refl, subst, true, false, List, [], ◌∷◌, Option, none, some, Bytes, empty, if-cases, inl,
  inr, Result, ok, throw_if-ok, >>=-ok, ok-injective,
}
use tailcat_in_c.Protocol.Types.{DerpNode, DerpRegion}
use tailcat_in_c.Protocol.Cbor.Int64.{ℤ}
use tailcat_in_c.Json.{Json, null, real, boolean, integer, text, array, object}
use tailcat_in_c.DerpMap.{
  is_none, sort_regions, regions_loop, regions_of, map_of, fetch_derp_map, select_derp_region,
  same_id, region_by_id, primary_derp_node, first_node,
}
use tailcat_in_c.DerpMap.Usable.{
  IsUsable, AreUsable, IsFirst, AreSorted, HaveHosts, at_most_refl, regions_loop-AreUsable,
  sort_regions-AreSorted, sort_regions-Each,
}

-- The regions of a map: usable, some, and sorted by their numbers.
abbrev pub IsMap : List DerpRegion → Type 0
IsMap regions = AreUsable regions × AreSorted regions × (is_none regions ≡ false)

module _ (stoll : Bytes → Option ℤ) where
  map_of-IsMap :
      (value : Option Json) (regions : List DerpRegion)
      → map_of stoll value ≡ ok regions
      → IsMap regions
  map_of-IsMap none regions e = absurd (cc)
  map_of-IsMap (some null) regions e = absurd (cc)
  map_of-IsMap (some (real n)) regions e = absurd (cc)
  map_of-IsMap (some (boolean b)) regions e = absurd (cc)
  map_of-IsMap (some (integer n)) regions e = absurd (cc)
  map_of-IsMap (some (text s)) regions e = absurd (cc)
  map_of-IsMap (some (array a)) regions e = absurd (cc)
  map_of-IsMap (some (object fields)) regions e =
      let found = sort_regions (regions_loop stoll fields) in
      let nonempty = throw_if-ok (is_none found) _ e in
      subst IsMap (ok-injective nonempty.1) (
        sort_regions-Each IsUsable (regions_loop stoll fields)
            (regions_loop-AreUsable stoll fields),
        sort_regions-AreSorted (regions_loop stoll fields),
        nonempty.0,
      )

  pub fetch_derp_map-IsMap :
      (parse : Bytes → Result Json) (download : Result Bytes) (regions : List DerpRegion)
      → fetch_derp_map stoll parse download ≡ ok regions
      → IsMap regions
  unfolding fetch_derp_map
  fetch_derp_map-IsMap parse download regions e =
      let body = >>=-ok download e in
      let root = >>=-ok (parse body.0) body.2 in
      map_of-IsMap (regions_of stoll root.0) regions root.2

-- A node to connect to, in a region that no other precedes.
pub record Selection (regions : List DerpRegion) : Type 0 where
  pub region : DerpRegion
  pub node : DerpNode
  pub selected : select_derp_region regions ≡ ok region
  pub primary : primary_derp_node region ≡ ok node
  pub host : empty node.host_name ≡ false
  pub first : IsFirst region regions

first_node-host :
    (nodes : List DerpNode)
    → is_none nodes ≡ false
    → HaveHosts nodes
    → (node : DerpNode) × (first_node nodes ≡ ok node) × (empty node.host_name ≡ false)
first_node-host [] n h = absurd (cc)
first_node-host (node ∷ nodes) n h = (node, refl, h.0)

pub selection : (regions : List DerpRegion) → IsMap regions → Selection regions
unfolding select_derp_region primary_derp_node
selection [] h = absurd (cc (h.2))
selection (region ∷ regions) h =
    let usable = h.0.0 in
    let first = first_node-host region.nodes usable.some_node usable.hosts in
    record {
      region = region;
      node = first.0;
      selected = refl;
      primary = first.1;
      host = first.2;
      first = (at_most_refl region.region_id, h.1.0);
    }

-- If fetch_derp_map returns a map, whatever the JSON, every region of it has a number that is not
-- 0, and nodes, each with a host name; select_derp_region returns a region before which no other
-- comes by its number, and primary_derp_node a node of it that has a host name.
pub fetched-Selection :
    (stoll : Bytes → Option ℤ) (parse : Bytes → Result Json) (download : Result Bytes)
    (regions : List DerpRegion)
    → fetch_derp_map stoll parse download ≡ ok regions
    → AreUsable regions × Selection regions
fetched-Selection stoll parse download regions e =
    let map = fetch_derp_map-IsMap stoll parse download regions e in (map.0, selection regions map)

region_by_id-id :
    (regions : List DerpRegion) (region_id : ℤ) (region : DerpRegion)
    → AreUsable regions
    → region_by_id regions region_id ≡ ok region
    → IsUsable region × (same_id region.region_id region_id ≡ true)
unfolding region_by_id
region_by_id-id [] region_id region h e = absurd (cc)
region_by_id-id (r ∷ regions) region_id region h e =
    elim (if-cases (same_id r.region_id region_id) e) [
      | inl (s, f) ↦
          subst (λ (r : DerpRegion). IsUsable r × (same_id r.region_id region_id ≡ true))
            (ok-injective f) (h.0, s)
      | inr (_, f) ↦ region_by_id-id regions region_id region h.1 f
    ]
