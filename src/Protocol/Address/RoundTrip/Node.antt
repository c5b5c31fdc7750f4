-- ===== src/Protocol/Address/RoundTrip/Node.antt =====
-- read_node after write_node.
use tailcat_in_c.Common.{
  ◌+◌, ◌^◌, ◌<◌, ◌≡◌, ◌∙◌, true, not, ◌++◌, append_assoc, arith, Bytes, codes, empty, ok,
}
use tailcat_in_c.Protocol.Cbor.Int64.{nonzero}
use tailcat_in_c.Protocol.Cbor.Reader.{for_count}
use tailcat_in_c.Protocol.Cbor.Writer
use tailcat_in_c.Protocol.Cbor.Items.{map_size-map_head}
use tailcat_in_c.Protocol.Types.{DerpNode, default_node}
use tailcat_in_c.Protocol.Address.Parse.{entry, node_field, read_node}
use tailcat_in_c.Protocol.Address.Encode.{flag, when, write_node}
use tailcat_in_c.Protocol.Address.RoundTrip.Entries.{for_count_end, flag-le}
use tailcat_in_c.Protocol.Address.RoundTrip.NodeFields.{
  IsNode, written_fields, step_name, step_region_id, step_host_name, step_cert_name, step_ipv4,
  step_ipv6, step_stun_port, step_derp_port, step_insecure,
}

module _ (n : DerpNode) (v : IsNode n) (rest : Bytes) where
  loop-write_node :
      for_count
        (flag (not (empty n.name))
          + (flag (nonzero n.region_id)
              + (flag (not (empty n.host_name))
                  + (flag (not (empty n.cert_name))
                      + (flag (not (empty n.ipv4))
                          + (flag (not (empty n.ipv6))
                              + (flag (nonzero n.stun_port)
                                  + (flag (nonzero n.derp_port)
                                      + (flag n.insecure_for_tests + 0)))))))))
        (entry node_field)
        default_node
        (when (not (empty n.name)) (Writer.text (codes "n") ++ Writer.text n.name)
          ++ (when (nonzero n.region_id) (Writer.text (codes "i") ++ Writer.integer n.region_id)
              ++ (when
                    (not (empty n.host_name))
                    (Writer.text (codes "h") ++ Writer.text n.host_name)
                  ++ (when
                        (not (empty n.cert_name))
                        (Writer.text (codes "t") ++ Writer.text n.cert_name)
                      ++ (when (not (empty n.ipv4)) (Writer.text (codes "4") ++ Writer.text n.ipv4)
                          ++ (when
                                (not (empty n.ipv6))
                                (Writer.text (codes "6") ++ Writer.text n.ipv6)
                              ++ (when
                                    (nonzero n.stun_port)
                                    (Writer.text (codes "s") ++ Writer.integer n.stun_port)
                                  ++ (when
                                        (nonzero n.derp_port)
                                        (Writer.text (codes "d") ++ Writer.integer n.derp_port)
                                      ++ (when n.insecure_for_tests
                                            (Writer.text (codes "x") ++ Writer.boolean true)
                                          ++ rest)))))))))
      ≡ ok (n, rest)
  loop-write_node =
      step_name n v _ _
      ∙ step_region_id n v _ _
      ∙ step_host_name n v _ _
      ∙ step_cert_name n v _ _
      ∙ step_ipv4 n v _ _
      ∙ step_ipv6 n v _ _
      ∙ step_stun_port n v _ _
      ∙ step_derp_port n v _ _
      ∙ step_insecure n v 0 rest
      ∙ for_count_end (entry node_field) n rest

  fields_small : written_fields n < 2 ^ 64
  fields_small = omega (
    arith,
    flag-le (not (empty n.name)),
    flag-le (nonzero n.region_id),
    flag-le (not (empty n.host_name)),
    flag-le (not (empty n.cert_name)),
    flag-le (not (empty n.ipv4)),
    flag-le (not (empty n.ipv6)),
    flag-le (nonzero n.stun_port),
    flag-le (nonzero n.derp_port),
    flag-le (n.insecure_for_tests),
  )

  regroup : written_fields n ≡ (
      flag (not (empty n.name))
      + (flag (nonzero n.region_id)
          + (flag (not (empty n.host_name))
              + (flag (not (empty n.cert_name))
                  + (flag (not (empty n.ipv4))
                      + (flag (not (empty n.ipv6))
                          + (flag (nonzero n.stun_port)
                              + (flag (nonzero n.derp_port)
                                  + (flag n.insecure_for_tests + 0)))))))))
  regroup = omega arith

  -- read_node gives back every field that write_node wrote, and the defaults of those it left out.
  pub read_node-write_node : read_node (write_node n ++ rest) ≡ ok (n, rest)
  unfolding read_node write_node
  read_node-write_node =
      simp append_assoc
        (rw (map_size-map_head (written_fields n) _ fields_small, regroup) loop-write_node)
