-- ===== src/Protocol/Address/RoundTrip/Region.antt =====
-- read_region after write_region.
use tailcat_in_c.Common.{
  ℕ, ◌+◌, ◌^◌, ◌<◌, ◌≡◌, refl, sym, ap, ◌∙◌, false, not, List, [], ◌∷◌, ◌++◌, map, append_assoc,
  append-nil, arith, Bytes, codes, empty, length, ok,
}
use tailcat_in_c.Protocol.Cbor.Int64.{ℤ, nonzero, IsInt64}
use tailcat_in_c.Protocol.Cbor.Reader.{for_count}
use tailcat_in_c.Protocol.Cbor.Writer
use tailcat_in_c.Protocol.Cbor.Items.{
  text-text, integer-integer, array_size-array, map_size-map_head,
}
use tailcat_in_c.Protocol.Types.{DerpNode, DerpRegion, default_region}
use tailcat_in_c.Protocol.Address.Parse.{
  entry, push_node, region_field, read_region, inherit_region,
}
use tailcat_in_c.Protocol.Address.Encode.{flag, when, write_nodes, has_nodes, write_region}
use tailcat_in_c.Protocol.Address.RoundTrip.Entries.{
  IsText, optional_entry, for_count_step, for_count_end, empty_or, zero_or, flag-le,
}
use tailcat_in_c.Protocol.Address.RoundTrip.NodeFields.{IsNode}
use tailcat_in_c.Protocol.Address.RoundTrip.Node.{read_node-write_node}

abbrev pub IsNodes : List DerpNode → Type 0
IsNodes [] = Unit
IsNodes (n ∷ ns) = IsNode n × IsNodes ns

pub record IsRegion (r : DerpRegion) : Type 0 where
  pub region_int : IsInt64 r.region_id
  pub code_text : IsText r.region_code
  pub name_text : IsText r.region_name
  pub nodes_count : length r.nodes < 2 ^ 64
  pub each_node : IsNodes r.nodes

-- What reading makes of a region: its nodes have a region of their own.
unfoldable pub settle : DerpRegion → DerpRegion
settle r = record r { nodes = map (inherit_region r.region_id) r.nodes }

push_node-write_node :
    (r : DerpRegion) (n : DerpNode) (more : Bytes)
    → IsNode n
    → push_node r (write_nodes (n ∷ []) ++ more)
      ≡ ok (record r { nodes = r.nodes ++ (n ∷ []) }, more)
unfolding push_node write_nodes
push_node-write_node r n more v = simp append-nil (rw (read_node-write_node n v more))

write_nodes-cons :
    (n : DerpNode) (ns : List DerpNode)
    → write_nodes (n ∷ ns) ≡ write_nodes (n ∷ []) ++ write_nodes ns
unfolding write_nodes
write_nodes-cons n ns = simp append-nil

-- The nodes are pushed in their order.
push_nodes-write_nodes :
    (r : DerpRegion) (ns : List DerpNode) (more : Bytes)
    → IsNodes ns
    → for_count (length ns) push_node r (write_nodes ns ++ more)
      ≡ ok (record r { nodes = r.nodes ++ ns }, more)
push_nodes-write_nodes r [] more v =
    unfold write_nodes in
    for_count_end push_node r more
    ∙ ap (λ t. ok (record r { nodes = t }, more)) (sym (append-nil r.nodes))
push_nodes-write_nodes r (n ∷ ns) more v =
    rw (write_nodes-cons n ns, append_assoc (write_nodes (n ∷ [])) (write_nodes ns) more)
      (for_count_step (length ns) push_node r (record r { nodes = r.nodes ++ (n ∷ []) }) _ _
          (push_node-write_node r n _ v.0)
        ∙ push_nodes-write_nodes (record r { nodes = r.nodes ++ (n ∷ []) }) ns more v.1
        ∙ ap (λ t. ok (record r { nodes = t }, more)) (append_assoc r.nodes (n ∷ []) ns))

module _ (r : DerpRegion) (rest : Bytes) where
  id_field :
      (z : ℤ)
      → IsInt64 z
      → region_field (codes "i") r (Writer.integer z ++ rest)
        ≡ ok (record r { region_id = z }, rest)
  unfolding region_field
  id_field z h = rw (integer-integer z rest h)

  code_field :
      (s : Bytes)
      → length s < 2 ^ 64
      → region_field (codes "c") r (Writer.text s ++ rest) ≡ ok (record r { region_code = s }, rest)
  unfolding region_field
  code_field s h = rw (text-text s rest h)

  name_field :
      (s : Bytes)
      → length s < 2 ^ 64
      → region_field (codes "m") r (Writer.text s ++ rest) ≡ ok (record r { region_name = s }, rest)
  unfolding region_field
  name_field s h = rw (text-text s rest h)

  nodes_field :
      (ns : List DerpNode)
      → length ns < 2 ^ 64
      → IsNodes ns
      → region_field (codes "N") r ((Writer.array (length ns) ++ write_nodes ns) ++ rest)
        ≡ ok (record r { nodes = r.nodes ++ ns }, rest)
  unfolding region_field
  nodes_field ns h v =
      rw
        (
          append_assoc (Writer.array (length ns)) (write_nodes ns) rest,
          array_size-array (length ns) (write_nodes ns ++ rest) h,
        )
        (push_nodes-write_nodes r ns rest v)

no_nodes_or : (ns : List DerpNode) → has_nodes ns ≡ false → [] ≡ ns
no_nodes_or [] h = refl
no_nodes_or (n ∷ ns) h = cc

abbrev region_1 : DerpRegion → DerpRegion
region_1 r = record default_region { region_id = r.region_id }

abbrev region_2 : DerpRegion → DerpRegion
region_2 r = record (region_1 r) { region_code = r.region_code }

abbrev region_3 : DerpRegion → DerpRegion
region_3 r = record (region_2 r) { region_name = r.region_name }

abbrev written_fields : DerpRegion → ℕ
written_fields r =
    flag (nonzero r.region_id)
    + flag (not (empty r.region_code))
    + flag (not (empty r.region_name))
    + flag (has_nodes r.nodes)

module _ (r : DerpRegion) (v : IsRegion r) (rest : Bytes) where
  loop-write_region :
      for_count
        (flag (nonzero r.region_id)
          + (flag (not (empty r.region_code))
              + (flag (not (empty r.region_name)) + (flag (has_nodes r.nodes) + 0))))
        (entry region_field)
        default_region
        (when (nonzero r.region_id) (Writer.text (codes "i") ++ Writer.integer r.region_id)
          ++ (when
                (not (empty r.region_code))
                (Writer.text (codes "c") ++ Writer.text r.region_code)
              ++ (when
                    (not (empty r.region_name))
                    (Writer.text (codes "m") ++ Writer.text r.region_name)
                  ++ (when (has_nodes r.nodes) (
                        Writer.text (codes "N")
                        ++ (Writer.array (length r.nodes) ++ write_nodes r.nodes))
                      ++ rest))))
      ≡ ok (r, rest)
  loop-write_region =
      optional_entry region_field (nonzero r.region_id) _ (codes "i") (Writer.integer r.region_id) _
        default_region (region_1 r) (omega arith)
        (λ _. id_field default_region _ r.region_id v.region_int)
        (λ e. ap (λ t. record default_region { region_id = t }) (zero_or r.region_id e))
      ∙ optional_entry region_field (not (empty r.region_code)) _ (codes "c")
          (Writer.text r.region_code) _ (region_1 r) (region_2 r) (omega arith)
          (λ _. code_field (region_1 r) _ r.region_code v.code_text.1)
          (λ e. ap (λ t. record (region_1 r) { region_code = t }) (empty_or r.region_code e))
      ∙ optional_entry region_field (not (empty r.region_name)) _ (codes "m")
          (Writer.text r.region_name) _ (region_2 r) (region_3 r) (omega arith)
          (λ _. name_field (region_2 r) _ r.region_name v.name_text.1)
          (λ e. ap (λ t. record (region_2 r) { region_name = t }) (empty_or r.region_name e))
      ∙ optional_entry region_field (has_nodes r.nodes) 0 (codes "N")
          (Writer.array (length r.nodes) ++ write_nodes r.nodes) rest (region_3 r) r (omega arith)
          (λ _. nodes_field (region_3 r) rest r.nodes v.nodes_count v.each_node)
          (λ e. ap (λ t. record (region_3 r) { nodes = t }) (no_nodes_or r.nodes e))
      ∙ for_count_end (entry region_field) r rest

  fields_small : written_fields r < 2 ^ 64
  fields_small = omega (
    arith,
    flag-le (nonzero r.region_id),
    flag-le (not (empty r.region_code)),
    flag-le (not (empty r.region_name)),
    flag-le (has_nodes r.nodes),
  )

  regroup :
      written_fields r
      ≡ flag (nonzero r.region_id)
        + (flag (not (empty r.region_code))
            + (flag (not (empty r.region_name)) + (flag (has_nodes r.nodes) + 0)))
  regroup = omega arith

  -- read_region gives back a well-formed region that write_region wrote, its nodes settled, and
  -- leaves what follows it.
  pub read_region-write_region : read_region (write_region r ++ rest) ≡ ok (settle r, rest)
  unfolding read_region write_region settle
  read_region-write_region =
      simp append_assoc
        (rw (map_size-map_head (written_fields r) _ fields_small, regroup, loop-write_region))
