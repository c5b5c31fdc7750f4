-- ===== src/Protocol/Address/RoundTrip/Whole.antt =====
-- parse_tailcat_addr after encode_tailcat_addr.
use tailcat_in_c.Common.{
  ◌^◌, ◌≤◌, ◌<◌, ◌≡◌, ◌≢◌, refl, true, false, not, ◌&&◌, ◌||◌, List, [], ◌∷◌, ◌++◌, map, append-nil,
  arith, Bytes, codes, IsBytes, length, ok, err, runtime_error, ◌>>=◌,
}
use tailcat_in_c.Protocol.Base64.{base64url_encode}
use tailcat_in_c.Protocol.Base64.RoundTrip.{base64url_decode-encode}
use tailcat_in_c.Protocol.Cbor.Int64.{nonzero}
use tailcat_in_c.Protocol.Types.{all_zero, DerpRegion, ConnInfo, is_zero_key, has_regions}
use tailcat_in_c.Protocol.Address.Parse.{
  rethrow, check_info, read_info, default_region_id, parse_tailcat_addr,
}
use tailcat_in_c.Protocol.Address.Encode.{write_info, encode_tailcat_addr}
use tailcat_in_c.Protocol.Address.RoundTrip.Region.{settle}
use tailcat_in_c.Protocol.Address.RoundTrip.InfoFields.{IsInfo, state_5}
use tailcat_in_c.Protocol.Address.RoundTrip.Info.{read_info-write_info, read_info-write_info_many}
use tailcat_in_c.Protocol.Address.RoundTrip.Written.{write_info-IsBytes, write_info-nonempty}

-- What encode_tailcat_addr takes: a well-formed value whose keys are not zero.
pub record IsEncodable (i : ConnInfo) : Type 0 where
  pub info : IsInfo i
  pub public_set : all_zero i.server_public ≡ false
  pub disco_set : is_zero_key i.server_disco_public ≡ false

-- The address that comes back: the nodes have the region they stand in, and the address that of
-- its first region if it named none.
unfoldable pub settled : ConnInfo → ConnInfo
settled i = let i' = record i { regions = map settle i.regions } in default_region_id i' i'.regions

encoded :
    (i : ConnInfo)
    → IsEncodable i
    → encode_tailcat_addr i ≡ ok (codes "tc" ++ base64url_encode (write_info i))
unfolding encode_tailcat_addr
encoded i v = rw (v.public_set, v.disco_set)

-- Behind the prefix and the base64 layer, parsing is reading the map and checking it.
parse-encoded :
    (w : Bytes)
    → IsBytes w
    → w ≢ []
    → parse_tailcat_addr (codes "tc" ++ base64url_encode w)
      ≡ (read_info w >>= (λ (s, rest). check_info s rest))
unfolding parse_tailcat_addr rethrow
parse-encoded w h ne = rw (base64url_decode-encode w h ne)

has_regions-map : (rs : List DerpRegion) → has_regions (map settle rs) ≡ has_regions rs
has_regions-map [] = refl
has_regions-map (r ∷ rs) = refl

still_routed :
    (i : ConnInfo)
    → (nonzero i.region_id || has_regions i.regions) ≡ true
    → (not (nonzero (default_region_id i i.regions).region_id)
        && not (has_regions (default_region_id i i.regions).regions))
      ≡ false
unfolding default_region_id
still_routed i h = ground arith

module _ (i : ConnInfo) (v : IsEncodable i) where
  checked :
      (nonzero i.region_id || has_regions i.regions) ≡ true
      → check_info (state_5 i) [] ≡ ok (settled i)
  unfolding check_info settled default_region_id
  checked h = rw (v.public_set, v.disco_set, still_routed (state_5 i).info (rw has_regions-map h))

  -- For a well-formed address with keys that are not zero, at most one region, and a region number
  -- or a region, encode_tailcat_addr returns and parse_tailcat_addr of the text gives the address
  -- back, settled: the region's nodes take its number where they have none, and so does the
  -- address.
  pub parse_tailcat_addr-encode_tailcat_addr :
      length i.regions ≤ 1
      → (nonzero i.region_id || has_regions i.regions) ≡ true
      → (encode_tailcat_addr i >>= parse_tailcat_addr) ≡ ok (settled i)
  parse_tailcat_addr-encode_tailcat_addr few routed =
      rw
        (
          encoded i v,
          parse-encoded (write_info i) (write_info-IsBytes i v.info) (write_info-nonempty i),
        )
        (rw (read_whole) (checked routed))
    where
      read_whole : read_info (write_info i) ≡ ok (state_5 i, [])
      read_whole = rw append-nil at (read_info-write_info i v.info [] few)

  -- A well-formed address with two regions or more (fewer than 2^64) is encoded by
  -- encode_tailcat_addr, and parse_tailcat_addr refuses the text with "more than one embedded DERP
  -- region".
  pub parse-encode_many :
      2 ≤ length i.regions
      → length i.regions < 2 ^ 64
      → (encode_tailcat_addr i >>= parse_tailcat_addr)
        ≡ err (runtime_error "tailcat address: more than one embedded DERP region")
  parse-encode_many many fits =
      rw
        (
          encoded i v,
          parse-encoded (write_info i) (write_info-IsBytes i v.info) (write_info-nonempty i),
        )
        (rw refused)
    where
      refused :
          read_info (write_info i)
          ≡ err (runtime_error "tailcat address: more than one embedded DERP region")
      refused = rw append-nil at (read_info-write_info_many i v.info [] many fits)
