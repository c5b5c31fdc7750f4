-- ===== src/Protocol/Address/RoundTrip/NodeFields.antt =====
-- The fields of a node that write_node wrote, read back one by one.
use tailcat_in_c.Common.{ℕ, ◌+◌, ◌≡◌, sym, ap, ◌∙◌, true, not, ◌++◌, arith, Bytes, codes, empty, ok}
use tailcat_in_c.Protocol.Cbor.Int64.{nonzero, IsInt64}
use tailcat_in_c.Protocol.Cbor.Reader.{for_count}
use tailcat_in_c.Protocol.Cbor.Writer
use tailcat_in_c.Protocol.Types.{DerpNode, default_node}
use tailcat_in_c.Protocol.Address.Parse.{entry, node_field}
use tailcat_in_c.Protocol.Address.Encode.{flag, when}
use tailcat_in_c.Protocol.Address.RoundTrip.Entries.{IsText, optional_entry, empty_or, zero_or}
use tailcat_in_c.Protocol.Address.RoundTrip.Fields.{
  name_field, host_field, cert_field, ipv4_field, ipv6_field, region_field, stun_field, derp_field,
  insecure_field,
}

pub record IsNode (n : DerpNode) : Type 0 where
  pub name_text : IsText n.name
  pub region_int : IsInt64 n.region_id
  pub host_text : IsText n.host_name
  pub cert_text : IsText n.cert_name
  pub ipv4_text : IsText n.ipv4
  pub ipv6_text : IsText n.ipv6
  pub stun_int : IsInt64 n.stun_port
  pub derp_int : IsInt64 n.derp_port

abbrev pub written_fields : DerpNode → ℕ
written_fields n =
    flag (not (empty n.name))
    + flag (nonzero n.region_id)
    + flag (not (empty n.host_name))
    + flag (not (empty n.cert_name))
    + flag (not (empty n.ipv4))
    + flag (not (empty n.ipv6))
    + flag (nonzero n.stun_port)
    + flag (nonzero n.derp_port)
    + flag n.insecure_for_tests

-- The states of the reading loop, with the first fields of `n` filled in.
module _ (n : DerpNode) where
  abbrev pub read_name : DerpNode
  read_name = record default_node { name = n.name }

  abbrev pub read_region_id : DerpNode
  read_region_id = record read_name { region_id = n.region_id }

  abbrev pub read_host_name : DerpNode
  read_host_name = record read_region_id { host_name = n.host_name }

  abbrev pub read_cert_name : DerpNode
  read_cert_name = record read_host_name { cert_name = n.cert_name }

  abbrev pub read_ipv4 : DerpNode
  read_ipv4 = record read_cert_name { ipv4 = n.ipv4 }

  abbrev pub read_ipv6 : DerpNode
  read_ipv6 = record read_ipv4 { ipv6 = n.ipv6 }

  abbrev pub read_stun_port : DerpNode
  read_stun_port = record read_ipv6 { stun_port = n.stun_port }

  abbrev pub read_derp_port : DerpNode
  read_derp_port = record read_stun_port { derp_port = n.derp_port }

-- One round of the loop for each field that was written.
module _ (n : DerpNode) (v : IsNode n) where
  pub step_name :
      (m : ℕ) (more : Bytes)
      → for_count
          (flag (not (empty n.name)) + m)
          (entry node_field)
          default_node
          (when (not (empty n.name)) (Writer.text (codes "n") ++ Writer.text n.name) ++ more)
        ≡ for_count m (entry node_field) (read_name n) more
  step_name m more =
      optional_entry node_field (not (empty n.name)) m (codes "n") (Writer.text n.name) more
        default_node (read_name n) (omega arith)
        (λ _. name_field default_node more n.name (v.name_text.1))
        (λ e. ap (λ t. record default_node { name = t }) (empty_or n.name e))

  pub step_region_id :
      (m : ℕ) (more : Bytes)
      → for_count (flag (nonzero n.region_id) + m) (entry node_field) (read_name n) (
          when (nonzero n.region_id) (Writer.text (codes "i") ++ Writer.integer n.region_id)
          ++ more)
        ≡ for_count m (entry node_field) (read_region_id n) more
  step_region_id m more =
      optional_entry node_field (nonzero n.region_id) m (codes "i") (Writer.integer n.region_id)
        more (read_name n) (read_region_id n) (omega arith)
        (λ _. region_field (read_name n) more n.region_id (v.region_int))
        (λ e. ap (λ t. record (read_name n) { region_id = t }) (zero_or n.region_id e))

  pub step_host_name :
      (m : ℕ) (more : Bytes)
      → for_count (flag (not (empty n.host_name)) + m) (entry node_field) (read_region_id n) (
          when (not (empty n.host_name)) (Writer.text (codes "h") ++ Writer.text n.host_name)
          ++ more)
        ≡ for_count m (entry node_field) (read_host_name n) more
  step_host_name m more =
      optional_entry node_field (not (empty n.host_name)) m (codes "h") (Writer.text n.host_name)
        more (read_region_id n) (read_host_name n) (omega arith)
        (λ _. host_field (read_region_id n) more n.host_name (v.host_text.1))
        (λ e. ap (λ t. record (read_region_id n) { host_name = t }) (empty_or n.host_name e))

  pub step_cert_name :
      (m : ℕ) (more : Bytes)
      → for_count (flag (not (empty n.cert_name)) + m) (entry node_field) (read_host_name n) (
          when (not (empty n.cert_name)) (Writer.text (codes "t") ++ Writer.text n.cert_name)
          ++ more)
        ≡ for_count m (entry node_field) (read_cert_name n) more
  step_cert_name m more =
      optional_entry node_field (not (empty n.cert_name)) m (codes "t") (Writer.text n.cert_name)
        more (read_host_name n) (read_cert_name n) (omega arith)
        (λ _. cert_field (read_host_name n) more n.cert_name (v.cert_text.1))
        (λ e. ap (λ t. record (read_host_name n) { cert_name = t }) (empty_or n.cert_name e))

  pub step_ipv4 :
      (m : ℕ) (more : Bytes)
      → for_count
          (flag (not (empty n.ipv4)) + m)
          (entry node_field)
          (read_cert_name n)
          (when (not (empty n.ipv4)) (Writer.text (codes "4") ++ Writer.text n.ipv4) ++ more)
        ≡ for_count m (entry node_field) (read_ipv4 n) more
  step_ipv4 m more =
      optional_entry node_field (not (empty n.ipv4)) m (codes "4") (Writer.text n.ipv4) more
        (read_cert_name n) (read_ipv4 n) (omega arith)
        (λ _. ipv4_field (read_cert_name n) more n.ipv4 (v.ipv4_text.1))
        (λ e. ap (λ t. record (read_cert_name n) { ipv4 = t }) (empty_or n.ipv4 e))

  pub step_ipv6 :
      (m : ℕ) (more : Bytes)
      → for_count
          (flag (not (empty n.ipv6)) + m)
          (entry node_field)
          (read_ipv4 n)
          (when (not (empty n.ipv6)) (Writer.text (codes "6") ++ Writer.text n.ipv6) ++ more)
        ≡ for_count m (entry node_field) (read_ipv6 n) more
  step_ipv6 m more =
      optional_entry node_field (not (empty n.ipv6)) m (codes "6") (Writer.text n.ipv6) more
        (read_ipv4 n) (read_ipv6 n) (omega arith)
        (λ _. ipv6_field (read_ipv4 n) more n.ipv6 (v.ipv6_text.1))
        (λ e. ap (λ t. record (read_ipv4 n) { ipv6 = t }) (empty_or n.ipv6 e))

  pub step_stun_port :
      (m : ℕ) (more : Bytes)
      → for_count (flag (nonzero n.stun_port) + m) (entry node_field) (read_ipv6 n) (
          when (nonzero n.stun_port) (Writer.text (codes "s") ++ Writer.integer n.stun_port)
          ++ more)
        ≡ for_count m (entry node_field) (read_stun_port n) more
  step_stun_port m more =
      optional_entry node_field (nonzero n.stun_port) m (codes "s") (Writer.integer n.stun_port)
        more (read_ipv6 n) (read_stun_port n) (omega arith)
        (λ _. stun_field (read_ipv6 n) more n.stun_port (v.stun_int))
        (λ e. ap (λ t. record (read_ipv6 n) { stun_port = t }) (zero_or n.stun_port e))

  pub step_derp_port :
      (m : ℕ) (more : Bytes)
      → for_count (flag (nonzero n.derp_port) + m) (entry node_field) (read_stun_port n) (
          when (nonzero n.derp_port) (Writer.text (codes "d") ++ Writer.integer n.derp_port)
          ++ more)
        ≡ for_count m (entry node_field) (read_derp_port n) more
  step_derp_port m more =
      optional_entry node_field (nonzero n.derp_port) m (codes "d") (Writer.integer n.derp_port)
        more (read_stun_port n) (read_derp_port n) (omega arith)
        (λ _. derp_field (read_stun_port n) more n.derp_port (v.derp_int))
        (λ e. ap (λ t. record (read_stun_port n) { derp_port = t }) (zero_or n.derp_port e))

  pub step_insecure :
      (m : ℕ) (more : Bytes)
      → for_count
          (flag n.insecure_for_tests + m)
          (entry node_field)
          (read_derp_port n)
          (when n.insecure_for_tests (Writer.text (codes "x") ++ Writer.boolean true) ++ more)
        ≡ for_count m (entry node_field) n more
  step_insecure m more =
      optional_entry node_field n.insecure_for_tests m (codes "x") (Writer.boolean true) more
        (read_derp_port n) n (omega arith)
        (λ e.
          insecure_field (read_derp_port n) more
          ∙ ap (λ t. ok (record (read_derp_port n) { insecure_for_tests = t }, more)) (sym e))
        (λ e. ap (λ t. record (read_derp_port n) { insecure_for_tests = t }) (sym e))
