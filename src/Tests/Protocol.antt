-- ===== src/Tests/Protocol.antt =====
-- An address, a ping and CBOR items, written and read back.
use tailcat_in_c.Common.{
  ℕ, zero, suc, ◌+◌, ◌*◌, ◌/◌, ◌<◌, ◌≡◌, refl, true, false, List, [], ◌∷◌, ◌++◌, none, some, arith,
  IsBytes, codes, contains, length, replicate, ok, err, runtime_error, ◌>>=◌, Ensures,
}
use tailcat_in_c.Protocol.Base64.{base64url_encode, base64url_decode}
use tailcat_in_c.Protocol.Base64.RoundTrip.{base64url_decode-encode, base64url_encode_shape}
use tailcat_in_c.Protocol.Cbor.Int64.{pos, negsuc}
use tailcat_in_c.Protocol.Cbor.Reader
use tailcat_in_c.Protocol.Cbor.Skip.{Leaves, skip-Leaves}
use tailcat_in_c.Protocol.Types.{
  Key32, all_zero, DerpNode, default_node, DerpRegion, default_region, ConnInfo,
}
use tailcat_in_c.Protocol.Address.Parse.{parse_tailcat_addr}
use tailcat_in_c.Protocol.Address.Encode.{encode_tailcat_addr}
use tailcat_in_c.Protocol.Address.Accepts.{IsAccepted, parse_tailcat_addr-IsAccepted}
use tailcat_in_c.Protocol.Address.RoundTrip.NodeFields.{IsNode}
use tailcat_in_c.Protocol.Address.RoundTrip.Region.{IsRegion}
use tailcat_in_c.Protocol.Address.RoundTrip.Whole.{
  IsEncodable, settled, parse_tailcat_addr-encode_tailcat_addr, parse-encode_many,
}
use tailcat_in_c.Protocol.Meow.{
  encode_meow_ping, encode_meowed, is_meow_packet, is_meowed_packet, parse_meow_ping,
}
use tailcat_in_c.Protocol.Meow.Laws.{parse_meow_ping-encode_meow_ping, parse_meow_ping_sound}

abbrev key_7 : Key32
key_7 = replicate 32 7

abbrev key_9 : Key32
key_9 = replicate 32 9

IsBytes-replicate : (n b : ℕ) → b < 256 → IsBytes (replicate n b)
IsBytes-replicate zero b h = tt
IsBytes-replicate (suc n) b h = (h, IsBytes-replicate n b h)

abbrev sample_node : DerpNode
sample_node = record default_node {
  host_name = codes "d.io";
  stun_port = negsuc 0;
  derp_port = pos 443;
  insecure_for_tests = true;
}

sample_node-IsNode : IsNode sample_node
sample_node-IsNode = record {
  name_text = (tt, omega arith);
  region_int = omega arith;
  host_text = ((omega arith, (omega arith, (omega arith, (omega arith, tt)))), omega arith);
  cert_text = (tt, omega arith);
  ipv4_text = (tt, omega arith);
  ipv6_text = (tt, omega arith);
  stun_int = omega arith;
  derp_int = omega arith;
}

abbrev sample_region : DerpRegion
sample_region = record default_region {
  region_id = pos 900;
  region_code = codes "x";
  nodes = sample_node ∷ [];
}

sample_region-IsRegion : IsRegion sample_region
sample_region-IsRegion = record {
  region_int = omega arith;
  code_text = ((omega arith, tt), omega arith);
  name_text = (tt, omega arith);
  nodes_count = omega arith;
  each_node = (sample_node-IsNode, tt);
}

abbrev sample_info : List DerpRegion → ConnInfo
sample_info rs = record {
  server_public = key_7;
  server_disco_public = some key_9;
  preshared_key = none;
  regions = rs;
  region_id = pos 0;
}

sample_keys : (IsBytes key_7 × (length key_7 ≡ 32)) × (IsBytes key_9 × (length key_9 ≡ 32))
sample_keys =
    ((IsBytes-replicate 32 7 (omega arith), refl), (IsBytes-replicate 32 9 (omega arith), refl))

one_region-IsEncodable : IsEncodable (sample_info (sample_region ∷ []))
one_region-IsEncodable = record {
  info = record {
    public_key = sample_keys.0;
    disco_key = sample_keys.1;
    psk_key = tt;
    each_region = (sample_region-IsRegion, tt);
    region_int = omega arith;
  };
  public_set = unfold all_zero in refl;
  disco_set = unfold all_zero in refl;
}

two_regions-IsEncodable : IsEncodable (sample_info (sample_region ∷ sample_region ∷ []))
two_regions-IsEncodable = record {
  info = record {
    public_key = sample_keys.0;
    disco_key = sample_keys.1;
    psk_key = tt;
    each_region = (sample_region-IsRegion, (sample_region-IsRegion, tt));
    region_int = omega arith;
  };
  public_set = unfold all_zero in refl;
  disco_set = unfold all_zero in refl;
}

parse_tailcat_addr-encode_tailcat_addr_example :
    (encode_tailcat_addr (sample_info (sample_region ∷ [])) >>= parse_tailcat_addr)
    ≡ ok (settled (sample_info (sample_region ∷ [])))
parse_tailcat_addr-encode_tailcat_addr_example =
    parse_tailcat_addr-encode_tailcat_addr (sample_info (sample_region ∷ [])) one_region-IsEncodable
      (omega arith) refl

parse-encode_many_example :
    (encode_tailcat_addr (sample_info (sample_region ∷ sample_region ∷ [])) >>= parse_tailcat_addr)
    ≡ err (runtime_error "tailcat address: more than one embedded DERP region")
parse-encode_many_example =
    parse-encode_many (sample_info (sample_region ∷ sample_region ∷ [])) two_regions-IsEncodable
      (omega arith) (omega arith)

parse_tailcat_addr-IsAccepted_example : Ensures IsAccepted (parse_tailcat_addr (codes "tcoWFhAQ"))
parse_tailcat_addr-IsAccepted_example = parse_tailcat_addr-IsAccepted (codes "tcoWFhAQ")

base64url_decode-encode_example :
    base64url_decode (base64url_encode (255 ∷ 0 ∷ 17 ∷ 4 ∷ [])) ≡ ok (255 ∷ 0 ∷ 17 ∷ 4 ∷ [])
base64url_decode-encode_example =
    base64url_decode-encode (255 ∷ 0 ∷ 17 ∷ 4 ∷ [])
      (omega arith, (omega arith, (omega arith, (omega arith, tt)))) (λ e. cc)

base64url_encode_shape_example :
    (length (base64url_encode (1 ∷ 2 ∷ [])) ≡ (2 * 4 + 2) / 3)
    × (contains b'=' (base64url_encode (1 ∷ 2 ∷ [])) ≡ false)
base64url_encode_shape_example = base64url_encode_shape (1 ∷ 2 ∷ [])

-- An array of an empty map and a text.
skip-Leaves_example : Leaves 5 (Reader.skip (0x82 ∷ 0xa0 ∷ 0x61 ∷ b'x' ∷ 7 ∷ []))
skip-Leaves_example = skip-Leaves (0x82 ∷ 0xa0 ∷ 0x61 ∷ b'x' ∷ 7 ∷ []) 5 (omega arith)

skip_run : Reader.skip (0x82 ∷ 0xa0 ∷ 0x61 ∷ b'x' ∷ 7 ∷ []) ≡ ok (tt, 7 ∷ [])
unfolding Reader.skip Reader.skip_depth Reader.skip_item Reader.head Reader.read_argument
    Reader.argument_size Reader.next_byte Reader.require Reader.require_len Reader.take_bytes
    Reader.for_count
skip_run = refl

parse_meow_ping-encode_meow_ping_example :
    (parse_meow_ping (encode_meow_ping key_7 key_9 ++ (1 ∷ [])) [] [] ≡ (true, key_7, key_9))
    × (is_meowed_packet (encode_meow_ping key_7 key_9 ++ (1 ∷ [])) ≡ false)
    × (is_meowed_packet encode_meowed ≡ true)
    × (parse_meow_ping encode_meowed [] [] ≡ (false, [], []))
parse_meow_ping-encode_meow_ping_example =
    parse_meow_ping-encode_meow_ping key_7 key_9 (1 ∷ []) [] [] refl refl (unfold all_zero in refl)

parse_meow_ping_run : parse_meow_ping (encode_meow_ping key_7 key_9) [] [] ≡ (true, key_7, key_9)
unfolding parse_meow_ping encode_meow_ping is_meow_packet all_zero
parse_meow_ping_run = refl

parse_meow_ping_sound_example :
    (is_meow_packet (encode_meow_ping key_7 key_9) ≡ true)
    × (is_meowed_packet (encode_meow_ping key_7 key_9) ≡ false)
    × (length key_7 ≡ 32)
    × (length key_9 ≡ 32)
    × (all_zero key_9 ≡ false)
parse_meow_ping_sound_example =
    parse_meow_ping_sound (encode_meow_ping key_7 key_9) [] [] key_7 key_9 parse_meow_ping_run
