-- ===== src/Protocol/Address/RoundTrip/InfoFields.antt =====
-- The fields of an address, each read by its key, and the states of the reading loop.
use Prim.Native.String.{String}
use tailcat_in_c.Common.{
  ℕ, zero, suc, ◌+◌, ◌^◌, ◌≤◌, ◌<◌, ◌≡◌, refl, sym, ap, ◌∙◌, Bool, true, false, not, List, [], ◌∷◌,
  ◌++◌, map, Option, none, some, append_assoc, append-nil, arith, Bytes, codes, IsBytes, empty,
  length, Result, Error, ok, err, runtime_error, ◌==◌, if◌then◌else◌,
}
use tailcat_in_c.Common
use tailcat_in_c.Protocol.Cbor.Int64.{ℤ, IsInt64}
use tailcat_in_c.Protocol.Cbor.Reader.{for_count}
use tailcat_in_c.Protocol.Cbor.Writer
use tailcat_in_c.Protocol.Cbor.Items.{bytes-bytes, integer-integer, array_size-array}
use tailcat_in_c.Protocol.Types.{Key32, DerpRegion, ConnInfo, default_info, has_regions}
use tailcat_in_c.Protocol.Address.Parse.{key32, push_region, read_regions, ParseState, info_field}
use tailcat_in_c.Protocol.Address.Encode.{write_regions, is_some, the_key}
use tailcat_in_c.Protocol.Address.RoundTrip.Entries.{for_count_step, for_count_end}
use tailcat_in_c.Protocol.Address.RoundTrip.Region.{IsRegion, settle, read_region-write_region}

abbrev pub IsKey : Key32 → Type 0
IsKey k = IsBytes k × (length k ≡ 32)

abbrev pub IsOptionalKey : Option Key32 → Type 0
IsOptionalKey none = Unit
IsOptionalKey (some k) = IsKey k

abbrev pub IsRegions : List DerpRegion → Type 0
IsRegions [] = Unit
IsRegions (r ∷ rs) = IsRegion r × IsRegions rs

-- The representation: keys of 32 bytes, int64 numbers, and strings and lists that a count holds.
pub record IsInfo (i : ConnInfo) : Type 0 where
  pub public_key : IsKey i.server_public
  pub disco_key : IsOptionalKey i.server_disco_public
  pub psk_key : IsOptionalKey i.preshared_key
  pub each_region : IsRegions i.regions
  pub region_int : IsInt64 i.region_id

key32-bytes :
    (field : String) (k rest : Bytes)
    → IsKey k
    → key32 field (Writer.bytes k ++ rest) ≡ ok (k, rest)
unfolding key32
key32-bytes field k rest v = rw (bytes-bytes k rest (omega arith), v.1)

push_region-write_region :
    (i : ConnInfo) (r : DerpRegion) (more : Bytes)
    → IsRegion r
    → push_region i (write_regions (r ∷ []) ++ more)
      ≡ ok (record i { regions = i.regions ++ (settle r ∷ []) }, more)
unfolding push_region write_regions
push_region-write_region i r more v = simp append-nil (rw (read_region-write_region r v more))

write_regions-cons :
    (r : DerpRegion) (rs : List DerpRegion)
    → write_regions (r ∷ rs) ≡ write_regions (r ∷ []) ++ write_regions rs
unfolding write_regions
write_regions-cons r rs = simp append-nil

pub push_regions-write_regions :
    (i : ConnInfo) (rs : List DerpRegion) (more : Bytes)
    → IsRegions rs
    → for_count (length rs) push_region i (write_regions rs ++ more)
      ≡ ok (record i { regions = i.regions ++ map settle rs }, more)
push_regions-write_regions i [] more v =
    unfold write_regions in
    for_count_end push_region i more
    ∙ ap (λ t. ok (record i { regions = t }, more)) (sym (append-nil i.regions))
push_regions-write_regions i (r ∷ rs) more v =
    rw (write_regions-cons r rs, append_assoc (write_regions (r ∷ [])) (write_regions rs) more)
      (for_count_step (length rs) push_region i
          (record i { regions = i.regions ++ (settle r ∷ []) }) _ _
          (push_region-write_region i r _ v.0)
        ∙ push_regions-write_regions (record i { regions = i.regions ++ (settle r ∷ []) }) rs more
            v.1
        ∙ ap (λ t. ok (record i { regions = t }, more))
            (append_assoc i.regions (settle r ∷ []) (map settle rs)))

module _ (s : ParseState) (rest : Bytes) where
  pub public_field :
      (k : Key32)
      → IsKey k
      → info_field (codes "p") s (Writer.bytes k ++ rest)
        ≡ ok (record { info = record s.info { server_public = k }; have_public = true }, rest)
  unfolding info_field
  public_field k v = rw (key32-bytes "ServerPublic" k rest v)

  pub disco_field :
      (k : Option Key32)
      → IsOptionalKey k
      → is_some k ≡ true
      → info_field (codes "k") s (Writer.bytes (the_key k) ++ rest)
        ≡ ok (record s { info = record s.info { server_disco_public = k } }, rest)
  unfolding info_field
  disco_field none v h = cc
  disco_field (some k) v h = rw (key32-bytes "ServerDiscoPublic" k rest v)

  pub psk_field :
      (k : Option Key32)
      → IsOptionalKey k
      → is_some k ≡ true
      → info_field (codes "q") s (Writer.bytes (the_key k) ++ rest)
        ≡ ok (record s { info = record s.info { preshared_key = k } }, rest)
  unfolding info_field
  psk_field none v h = cc
  psk_field (some k) v h = rw (key32-bytes "PresharedKey" k rest v)

  pub regions_field :
      (rs : List DerpRegion)
      → length rs ≤ 1
      → IsRegions rs
      → info_field (codes "r") s ((Writer.array (length rs) ++ write_regions rs) ++ rest)
        ≡ ok (record s { info = record s.info { regions = s.info.regions ++ map settle rs } }, rest)
  unfolding info_field read_regions
  regions_field rs h v =
      rw
        (
          append_assoc (Writer.array (length rs)) (write_regions rs) rest,
          array_size-array (length rs) (write_regions rs ++ rest) (omega arith),
          few,
        )
        (rw (push_regions-write_regions s.info rs rest v))
    where
      few : Common.ltb 1 (length rs) ≡ false
      few = ground arith

  pub region_id_field :
      (z : ℤ)
      → IsInt64 z
      → info_field (codes "i") s (Writer.integer z ++ rest)
        ≡ ok (record s { info = record s.info { region_id = z } }, rest)
  unfolding info_field
  region_id_field z h = rw (integer-integer z rest h)

pub no_key_or : (k : Option Key32) → is_some k ≡ false → none ≡ k
no_key_or none h = refl
no_key_or (some k) h = cc

pub no_regions_or : (rs : List DerpRegion) → has_regions rs ≡ false → [] ≡ map settle rs
no_regions_or [] h = refl
no_regions_or (r ∷ rs) h = cc

-- The states of the reading loop.
abbrev pub start : ParseState
start = record { info = default_info; have_public = false }

abbrev pub state_1 : ConnInfo → ParseState
state_1 i = record {
  info = record default_info { server_public = i.server_public };
  have_public = true;
}

abbrev pub state_2 : ConnInfo → ParseState
state_2 i = record (state_1 i) {
  info = record (state_1 i).info { server_disco_public = i.server_disco_public };
}

abbrev pub state_3 : ConnInfo → ParseState
state_3 i = record (state_2 i) {
  info = record (state_2 i).info { preshared_key = i.preshared_key };
}

abbrev pub state_4 : ConnInfo → ParseState
state_4 i = record (state_3 i) { info = record (state_3 i).info { regions = map settle i.regions } }

abbrev pub state_5 : ConnInfo → ParseState
state_5 i = record { info = record i { regions = map settle i.regions }; have_public = true }
