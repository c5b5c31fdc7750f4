-- ===== src/DerpMap/Usable.antt =====
-- A map that src/derp_map.cpp fetched has a region and a node to connect to.
use tailcat_in_c.Common.{
  ◌≡◌, refl, true, false, ◌&&◌, not, List, [], ◌∷◌, Option, none, some, Bytes, codes, empty,
  if-holds, Each, arith,
}
use tailcat_in_c.Protocol.Types.{DerpNode, DerpRegion}
use tailcat_in_c.Protocol.Cbor.Int64.{ℤ, pos, negsuc, nonzero}
use tailcat_in_c.Json.{
  Json, null, real, boolean, integer, text, array, object, Items, no_items, item, Fields, no_fields,
  field, find_field,
}
use tailcat_in_c.DerpMap.{
  bool_or, parse_node, with_host, parse_nodes, nodes_of, parse_region, is_none, at_most,
  insert_region, sort_regions, add_region, regions_loop,
}

abbrev pub HaveHosts : List DerpNode → Type 0
HaveHosts nodes = Each (λ (node : DerpNode). empty node.host_name ≡ false) nodes

-- A region with a number and nodes, each with a host name.
pub record IsUsable (region : DerpRegion) : Type 0 where
  pub numbered : nonzero region.region_id ≡ true
  pub some_node : is_none region.nodes ≡ false
  pub hosts : HaveHosts region.nodes

with_host-HaveHosts :
    (node : DerpNode) (nodes : List DerpNode) → HaveHosts nodes → HaveHosts (with_host node nodes)
with_host-HaveHosts node nodes h =
    if-holds HaveHosts (not (empty node.host_name)) (λ e. (ground arith, h)) (λ _. h)

parse_nodes-HaveHosts : (region_id : ℤ) (items : Items) → HaveHosts (parse_nodes region_id items)
unfolding parse_nodes
parse_nodes-HaveHosts region_id no_items = tt
parse_nodes-HaveHosts region_id (item (object nj) items) =
    if-holds HaveHosts (bool_or nj (codes "STUNOnly")) (λ _. parse_nodes-HaveHosts region_id items)
      (λ _. with_host-HaveHosts (parse_node nj region_id) _ (parse_nodes-HaveHosts region_id items))
parse_nodes-HaveHosts region_id (item null items) = parse_nodes-HaveHosts region_id items
parse_nodes-HaveHosts region_id (item (real n) items) = parse_nodes-HaveHosts region_id items
parse_nodes-HaveHosts region_id (item (boolean b) items) = parse_nodes-HaveHosts region_id items
parse_nodes-HaveHosts region_id (item (integer n) items) = parse_nodes-HaveHosts region_id items
parse_nodes-HaveHosts region_id (item (text s) items) = parse_nodes-HaveHosts region_id items
parse_nodes-HaveHosts region_id (item (array a) items) = parse_nodes-HaveHosts region_id items

nodes_of-HaveHosts : (region_id : ℤ) (value : Option Json) → HaveHosts (nodes_of region_id value)
nodes_of-HaveHosts region_id (some (array items)) = parse_nodes-HaveHosts region_id items
nodes_of-HaveHosts region_id none = tt
nodes_of-HaveHosts region_id (some _) = tt

abbrev pub AreUsable : List DerpRegion → Type 0
AreUsable regions = Each IsUsable regions

module _ (stoll : Bytes → Option ℤ) where
  add_region-AreUsable :
      (id : Option ℤ) (value : Json) (regions : List DerpRegion)
      → AreUsable regions
      → AreUsable (add_region stoll id value regions)
  unfolding parse_region
  add_region-AreUsable (some id) (object j) regions h =
      if-holds (Each IsUsable)
        (nonzero (parse_region j id).region_id && not (is_none (parse_region j id).nodes))
        (λ e. (
          record {
            numbered = ground arith;
            some_node = ground arith;
            hosts = nodes_of-HaveHosts _ (find_field (codes "Nodes") j);
          },
          h,
        ))
        (λ _. h)
  add_region-AreUsable (some id) _ regions h = h
  add_region-AreUsable none _ regions h = h

  pub regions_loop-AreUsable : (fields : Fields) → AreUsable (regions_loop stoll fields)
  unfolding regions_loop
  regions_loop-AreUsable no_fields = tt
  regions_loop-AreUsable (field key value fields) =
      add_region-AreUsable (stoll key) value (regions_loop stoll fields)
        (regions_loop-AreUsable fields)

at_most_trans : (a b c : ℤ) → at_most a b ≡ true → at_most b c ≡ true → at_most a c ≡ true
at_most_trans (pos a) (pos b) (pos c) h k = ground arith
at_most_trans (pos a) (pos b) (negsuc c) h k = absurd (cc)
at_most_trans (pos a) (negsuc b) c h k = absurd (cc)
at_most_trans (negsuc a) (pos b) (pos c) h k = refl
at_most_trans (negsuc a) (pos b) (negsuc c) h k = absurd (cc)
at_most_trans (negsuc a) (negsuc b) (pos c) h k = refl
at_most_trans (negsuc a) (negsuc b) (negsuc c) h k = ground arith

at_most_total : (a b : ℤ) → at_most a b ≡ false → at_most b a ≡ true
at_most_total (pos a) (pos b) h = ground arith
at_most_total (pos a) (negsuc b) h = refl
at_most_total (negsuc a) (pos b) h = absurd (cc)
at_most_total (negsuc a) (negsuc b) h = ground arith

pub at_most_refl : (a : ℤ) → at_most a a ≡ true
at_most_refl (pos a) = ground arith
at_most_refl (negsuc a) = ground arith

-- No region has a number below that of `region`.
abbrev pub IsFirst : DerpRegion → List DerpRegion → Type 0
IsFirst region regions =
    Each (λ (other : DerpRegion). at_most region.region_id other.region_id ≡ true) regions

-- By their numbers.
abbrev pub AreSorted : List DerpRegion → Type 0
AreSorted [] = Unit
AreSorted (region ∷ regions) = IsFirst region regions × AreSorted regions

IsFirst-lower :
    (a b : DerpRegion) (regions : List DerpRegion)
    → at_most a.region_id b.region_id ≡ true
    → IsFirst b regions
    → IsFirst a regions
IsFirst-lower a b [] h f = tt
IsFirst-lower a b (c ∷ regions) h f =
    (at_most_trans a.region_id b.region_id c.region_id h f.0, IsFirst-lower a b regions h f.1)

insert_region-Each :
    (P : DerpRegion → Type 0) (new : DerpRegion) (regions : List DerpRegion)
    → P new
    → Each P regions
    → Each P (insert_region new regions)
insert_region-Each P new [] p h = (p, tt)
insert_region-Each P new (region ∷ regions) p h =
    if-holds (Each P) (at_most new.region_id region.region_id) (λ _. (p, h))
      (λ _. (h.0, insert_region-Each P new regions p h.1))

insert_region-AreSorted :
    (new : DerpRegion) (regions : List DerpRegion)
    → AreSorted regions
    → AreSorted (insert_region new regions)
insert_region-AreSorted new [] h = (tt, tt)
insert_region-AreSorted new (region ∷ regions) h =
    if-holds AreSorted (at_most new.region_id region.region_id)
      (λ e. ((e, IsFirst-lower new region regions e h.0), h))
      (λ e. (
        insert_region-Each _ new regions (at_most_total new.region_id region.region_id e) h.0,
        insert_region-AreSorted new regions h.1,
      ))

pub sort_regions-AreSorted : (regions : List DerpRegion) → AreSorted (sort_regions regions)
unfolding sort_regions
sort_regions-AreSorted [] = tt
sort_regions-AreSorted (region ∷ regions) =
    insert_region-AreSorted region (sort_regions regions) (sort_regions-AreSorted regions)

pub sort_regions-Each :
    (P : DerpRegion → Type 0) (regions : List DerpRegion)
    → Each P regions
    → Each P (sort_regions regions)
unfolding sort_regions
sort_regions-Each P [] h = tt
sort_regions-Each P (region ∷ regions) h =
    insert_region-Each P region (sort_regions regions) h.0 (sort_regions-Each P regions h.1)
