-- ===== src/Protocol/Address/RoundTrip/Info.antt =====
-- The map of an address: read_info after write_info.
use tailcat_in_c.Common.{
  ℕ, zero, suc, ◌+◌, ◌^◌, ◌≤◌, ◌<◌, ◌≡◌, refl, sym, ap, ◌∙◌, Bool, true, false, not, List, [], ◌∷◌,
  ◌++◌, map, Option, none, some, append_assoc, append-nil, arith, Bytes, codes, IsBytes, empty,
  length, Result, Error, ok, err, runtime_error, ◌==◌, if◌then◌else◌,
}
use tailcat_in_c.Common
use tailcat_in_c.Protocol.Cbor.Int64.{nonzero}
use tailcat_in_c.Protocol.Cbor.Reader.{for_count}
use tailcat_in_c.Protocol.Cbor.Writer
use tailcat_in_c.Protocol.Cbor.Items.{array_size-array, map_size-map_head}
use tailcat_in_c.Protocol.Types.{DerpRegion, ConnInfo, has_regions}
use tailcat_in_c.Protocol.Address.Parse.{entry, read_regions, ParseState, info_field, read_info}
use tailcat_in_c.Protocol.Address.Encode.{flag, when, write_regions, is_some, the_key, write_info}
use tailcat_in_c.Protocol.Address.RoundTrip.Entries.{
  optional_entry, required_entry-err, for_count_end, zero_or, flag-le,
}
use tailcat_in_c.Protocol.Address.RoundTrip.InfoFields.{
  IsInfo, public_field, disco_field, psk_field, regions_field, region_id_field, no_key_or,
  no_regions_or, start, state_1, state_2, state_3, state_4, state_5,
}

abbrev written_fields : ConnInfo → ℕ
written_fields i =
    1
    + flag (is_some i.server_disco_public)
    + flag (is_some i.preshared_key)
    + flag (has_regions i.regions)
    + flag (nonzero i.region_id)

-- The keys, whatever follows them.
module _ (i : ConnInfo) (v : IsInfo i) (m : ℕ) (more : Bytes) where
  loop_keys :
      for_count
        (flag true + (flag (is_some i.server_disco_public) + (flag (is_some i.preshared_key) + m)))
        (entry info_field)
        start
        (when true (Writer.text (codes "p") ++ Writer.bytes i.server_public)
          ++ (when
                (is_some i.server_disco_public)
                (Writer.text (codes "k") ++ Writer.bytes (the_key i.server_disco_public))
              ++ (when
                    (is_some i.preshared_key)
                    (Writer.text (codes "q") ++ Writer.bytes (the_key i.preshared_key))
                  ++ more)))
      ≡ for_count m (entry info_field) (state_3 i) more
  loop_keys =
      optional_entry info_field true _ (codes "p") (Writer.bytes i.server_public) _ start
        (state_1 i) (omega arith) (λ _. public_field start _ i.server_public v.public_key) (λ e. cc)
      ∙ optional_entry info_field (is_some i.server_disco_public) _ (codes "k")
          (Writer.bytes (the_key i.server_disco_public)) _ (state_1 i) (state_2 i) (omega arith)
          (λ e. disco_field (state_1 i) _ i.server_disco_public v.disco_key e)
          (λ e.
            ap
              (λ t. record (state_1 i) {
                info = record (state_1 i).info { server_disco_public = t };
              })
              (no_key_or i.server_disco_public e))
      ∙ optional_entry info_field (is_some i.preshared_key) m (codes "q")
          (Writer.bytes (the_key i.preshared_key)) more (state_2 i) (state_3 i) (omega arith)
          (λ e. psk_field (state_2 i) _ i.preshared_key v.psk_key e)
          (λ e.
            ap (λ t. record (state_2 i) { info = record (state_2 i).info { preshared_key = t } })
              (no_key_or i.preshared_key e))

module _ (i : ConnInfo) (v : IsInfo i) (few : length i.regions ≤ 1) (rest : Bytes) where
  loop_regions :
      for_count
        (flag (has_regions i.regions) + (flag (nonzero i.region_id) + 0))
        (entry info_field)
        (state_3 i)
        (when (has_regions i.regions) (
            Writer.text (codes "r") ++ (Writer.array (length i.regions) ++ write_regions i.regions))
          ++ (when (nonzero i.region_id) (Writer.text (codes "i") ++ Writer.integer i.region_id)
              ++ rest))
      ≡ ok (state_5 i, rest)
  loop_regions =
      optional_entry info_field (has_regions i.regions) _ (codes "r")
        (Writer.array (length i.regions) ++ write_regions i.regions) _ (state_3 i) (state_4 i)
        (omega arith) (λ _. regions_field (state_3 i) _ i.regions few v.each_region)
        (λ e.
          ap (λ t. record (state_3 i) { info = record (state_3 i).info { regions = t } })
            (no_regions_or i.regions e))
      ∙ optional_entry info_field (nonzero i.region_id) 0 (codes "i") (Writer.integer i.region_id)
          rest (state_4 i) (state_5 i) (omega arith)
          (λ _. region_id_field (state_4 i) rest i.region_id v.region_int)
          (λ e.
            ap (λ t. record (state_4 i) { info = record (state_4 i).info { region_id = t } })
              (zero_or i.region_id e))
      ∙ for_count_end (entry info_field) (state_5 i) rest

-- A second region in one array ends the reading.
module _ (i : ConnInfo) (many : 2 ≤ length i.regions) (fits : length i.regions < 2 ^ 64)
    (rest : Bytes) where
  regions_field-many :
      (s : ParseState) (rs : List DerpRegion) (more : Bytes)
      → 2 ≤ length rs
      → length rs < 2 ^ 64
      → info_field (codes "r") s ((Writer.array (length rs) ++ write_regions rs) ++ more)
        ≡ err (runtime_error "tailcat address: more than one embedded DERP region")
  unfolding info_field read_regions
  regions_field-many s rs more h hs = rw (
    append_assoc (Writer.array (length rs)) (write_regions rs) more,
    array_size-array (length rs) (write_regions rs ++ more) hs,
    too_many,
  )
    where
      too_many : Common.ltb 1 (length rs) ≡ true
      too_many = ground arith

  loop_regions-many :
      for_count
        (flag (has_regions i.regions) + (flag (nonzero i.region_id) + 0))
        (entry info_field)
        (state_3 i)
        (when (has_regions i.regions) (
            Writer.text (codes "r") ++ (Writer.array (length i.regions) ++ write_regions i.regions))
          ++ (when (nonzero i.region_id) (Writer.text (codes "i") ++ Writer.integer i.region_id)
              ++ rest))
      ≡ err (runtime_error "tailcat address: more than one embedded DERP region")
  loop_regions-many =
      required_entry-err info_field (has_regions i.regions) _ (codes "r")
        (Writer.array (length i.regions) ++ write_regions i.regions) _ (state_3 i) _ (omega arith)
        (has i.regions many) (regions_field-many (state_3 i) i.regions _ many fits)
    where
      has : (rs : List DerpRegion) → 2 ≤ length rs → has_regions rs ≡ true
      has [] h = absurd (omega arith)
      has (r ∷ rs) h = refl

module _ (i : ConnInfo) (v : IsInfo i) (rest : Bytes) where
  fields_small : written_fields i < 2 ^ 64
  fields_small = omega (
    arith,
    flag-le (is_some i.server_disco_public),
    flag-le (is_some i.preshared_key),
    flag-le (has_regions i.regions),
    flag-le (nonzero i.region_id),
  )

  regroup :
      written_fields i
      ≡ flag true
        + (flag (is_some i.server_disco_public)
            + (flag (is_some i.preshared_key)
                + (flag (has_regions i.regions) + (flag (nonzero i.region_id) + 0))))
  regroup = omega arith

  read_info_with :
      (r : Result (ParseState × Bytes))
      → for_count
          (flag (has_regions i.regions) + (flag (nonzero i.region_id) + 0))
          (entry info_field)
          (state_3 i)
          (when (has_regions i.regions) (
              Writer.text (codes "r")
              ++ (Writer.array (length i.regions) ++ write_regions i.regions))
            ++ (when (nonzero i.region_id) (Writer.text (codes "i") ++ Writer.integer i.region_id)
                ++ rest))
        ≡ r
      → read_info (write_info i ++ rest) ≡ r
  unfolding read_info write_info
  read_info_with r h =
      let whole = loop_keys i v _ _ ∙ h in
      simp append_assoc (
        rw (map_size-map_head (written_fields i) _ fields_small, regroup)
          (simp append_assoc at whole))

  -- read_info gives back what write_info wrote, the regions' nodes settled.
  pub read_info-write_info :
      length i.regions ≤ 1 → read_info (write_info i ++ rest) ≡ ok (state_5 i, rest)
  read_info-write_info few = read_info_with _ (loop_regions i v few rest)

  -- With two regions or more, which the writer does not refuse, the reader throws.
  pub read_info-write_info_many :
      2 ≤ length i.regions
      → length i.regions < 2 ^ 64
      → read_info (write_info i ++ rest)
        ≡ err (runtime_error "tailcat address: more than one embedded DERP region")
  read_info-write_info_many many fits = read_info_with _ (loop_regions-many i many fits rest)
