-- ===== src/Protocol/Address/Accepts.antt =====
-- parse_tailcat_addr on any input: it ends, and what it accepts can be dialled.
use tailcat_in_c.Protocol.Address.Total.{
  Keeps, for_count-Keeps, then_pure, entry-Leaves, push_node-Leaves, throw_if-Ensures, decode-Ends,
  rethrow-Ends,
}
use Prim.Native.String.{String}
use tailcat_in_c.Common.{
  ℕ, zero, suc, ◌+◌, ◌-◌, ◌%◌, ◌^◌, ◌≤◌, ◌<◌, ◌≡◌, refl, Bool, true, false, not, ◌&&◌, ◌||◌, ◌⊎◌,
  inl, inr, List, [], ◌∷◌, ◌++◌, map, Option, none, some, arith, Bytes, codes, bytes_eq, contains,
  starts_with, empty, drop, length, ltb, leb, ◌==◌, if◌then◌else◌, Bool-cases, Result, Error, ok,
  err, runtime_error, invalid_argument, out_of_fuel, runtime-ne, throw_if, Ensures, returns, throws,
  Ensures-bind, Ensures-if, Ensures-mono,
}
use tailcat_in_c.Common
use tailcat_in_c.Protocol.Cbor.Int64.{nonzero}
use tailcat_in_c.Protocol.Cbor.Reader.{Reader, skip, text, integer}
use tailcat_in_c.Protocol.Cbor.Skip.{Leaves, Leaves-if, for_count-Leaves, skip-Leaves}
use tailcat_in_c.Protocol.Cbor.Total.{
  map_size-Leaves, array_size-Leaves, text-Leaves, bytes-Leaves, integer-Leaves,
}
use tailcat_in_c.Protocol.Types.{
  Key32, all_zero, DerpRegion, default_region, ConnInfo, is_zero_key, has_regions,
}
use tailcat_in_c.Protocol.Address.Parse.{
  key32, entry, push_node, region_field, read_region, ParseState, push_region, read_regions,
  info_field, default_region_id, check_info, read_info, parse_tailcat_addr,
}

region_field-Leaves :
    (n : ℕ) (key : Bytes) (r : DerpRegion) (bs : Bytes)
    → length bs ≤ n
    → Leaves n (region_field key r bs)
unfolding region_field
region_field-Leaves n key r bs h =
    Leaves-if (bytes_eq key (codes "i")) _ _ bs n (then_pure integer _ bs n (integer-Leaves bs n h))
      (Leaves-if (bytes_eq key (codes "c")) _ _ bs n (then_pure text _ bs n (text-Leaves bs n h)) (
        Leaves-if (bytes_eq key (codes "m")) _ _ bs n (then_pure text _ bs n (text-Leaves bs n h)) (
          Leaves-if (bytes_eq key (codes "N")) _ _ bs n
            (Ensures-bind (array_size-Leaves bs n h)
              (λ (k, rest) small. for_count-Leaves k push_node n (push_node-Leaves n) r rest small))
            (then_pure skip _ bs n (skip-Leaves bs n h)))))

read_region-Leaves : (bs : Bytes) (n : ℕ) → length bs ≤ n → Leaves n (read_region bs)
unfolding read_region
read_region-Leaves bs n h = Ensures-bind (map_size-Leaves bs n h) (λ (count, rest) small.
    Ensures-bind
      (for_count-Leaves count (entry region_field) n
        (entry-Leaves region_field n (region_field-Leaves n)) default_region rest small)
      (λ (region, rest') small'. returns small'))

-- Every key that was read has 32 bytes.
abbrev pub IsOptional32 : Option Key32 → Type 0
IsOptional32 none = Unit
IsOptional32 (some k) = length k ≡ 32

pub record HasKeys (i : ConnInfo) : Type 0 where
  pub public_size : length i.server_public ≡ 32
  pub disco_size : IsOptional32 i.server_disco_public
  pub psk_size : IsOptional32 i.preshared_key

abbrev StateHasKeys : ParseState → Type 0
StateHasKeys s = HasKeys s.info

key32-Ensures :
    (field : String) (bs : Bytes) (n : ℕ)
    → length bs ≤ n
    → Keeps (λ k. length k ≡ 32) n (key32 field bs)
unfolding key32
key32-Ensures field bs n h = Ensures-bind (bytes-Leaves bs n h) (λ (raw, rest) small.
    elim (Bool-cases (length raw == 32)) [
      | inl e ↦ rw e (returns ((Common.==_iff (length raw) 32).0 e, small))
      | inr e ↦ rw e (throws runtime-ne)
    ])

push_region-Keeps :
    (n : ℕ) (i : ConnInfo) (bs : Bytes)
    → HasKeys i
    → length bs ≤ n
    → Keeps HasKeys n (push_region i bs)
unfolding push_region
push_region-Keeps n i bs v h = Ensures-bind (read_region-Leaves bs n h) (λ (r, rest) small.
    returns (
      record { public_size = v.public_size; disco_size = v.disco_size; psk_size = v.psk_size },
      small,
    ))

read_regions-Keeps :
    (n : ℕ) (i : ConnInfo) (bs : Bytes)
    → HasKeys i
    → length bs ≤ n
    → Keeps HasKeys n (read_regions i bs)
unfolding read_regions
read_regions-Keeps n i bs v h = Ensures-bind (array_size-Leaves bs n h) (λ (k, rest) small.
    elim (Bool-cases (ltb 1 k)) [
      | inl e ↦ rw e (throws runtime-ne)
      | inr e ↦ rw e (for_count-Keeps HasKeys k push_region n (push_region-Keeps n) i rest v small)
    ])

Keeps-if :
    {S : Type 0} (P : S → Type 0) (b : Bool) (p q : Reader S) (bs : Bytes) (n : ℕ)
    → Keeps P n (p bs)
    → Keeps P n (q bs)
    → Keeps P n ((if b then p else q) bs)
Keeps-if P true p q bs n hp hq = hp
Keeps-if P false p q bs n hp hq = hq

info_field-Keeps :
    (n : ℕ) (key : Bytes) (s : ParseState) (bs : Bytes)
    → HasKeys s.info
    → length bs ≤ n
    → Keeps StateHasKeys n (info_field key s bs)
unfolding info_field
info_field-Keeps n key s bs v h =
    Keeps-if StateHasKeys (bytes_eq key (codes "p")) _ _ bs n
      (Ensures-bind (key32-Ensures "ServerPublic" bs n h) (λ (k, rest) (size, small).
        returns
          (record { public_size = size; disco_size = v.disco_size; psk_size = v.psk_size }, small)))
      (Keeps-if StateHasKeys (bytes_eq key (codes "k")) _ _ bs n
        (Ensures-bind (key32-Ensures "ServerDiscoPublic" bs n h) (λ (k, rest) (size, small).
          returns (
            record { public_size = v.public_size; disco_size = size; psk_size = v.psk_size },
            small,
          )))
        (Keeps-if StateHasKeys (bytes_eq key (codes "q")) _ _ bs n
          (Ensures-bind (key32-Ensures "PresharedKey" bs n h) (λ (k, rest) (size, small). returns (
            record { public_size = v.public_size; disco_size = v.disco_size; psk_size = size },
            small,
          )))
          (Keeps-if StateHasKeys (bytes_eq key (codes "r")) _ _ bs n
            (Ensures-bind (read_regions-Keeps n s.info bs v h)
              (λ (i, rest) (kept, small). returns (kept, small)))
            (Keeps-if StateHasKeys (bytes_eq key (codes "i")) _ _ bs n
              (Ensures-bind (integer-Leaves bs n h) (λ (z, rest) small. returns (
                record {
                  public_size = v.public_size;
                  disco_size = v.disco_size;
                  psk_size = v.psk_size;
                },
                small,
              )))
              (Ensures-bind (skip-Leaves bs n h) (λ (_, rest) small. returns (v, small)))))))

entry-Keeps :
    (n : ℕ) (s : ParseState) (bs : Bytes)
    → StateHasKeys s
    → length bs ≤ n
    → Keeps StateHasKeys n (entry info_field s bs)
unfolding entry
entry-Keeps n s bs v h =
    Ensures-bind (text-Leaves bs n h) (λ (key, rest) small. info_field-Keeps n key s rest v small)

read_info-Keeps : (bs : Bytes) → Keeps StateHasKeys (length bs) (read_info bs)
unfolding read_info
read_info-Keeps bs =
    Ensures-bind (map_size-Leaves bs (length bs) (omega arith)) (λ (count, rest) small.
      for_count-Keeps StateHasKeys count (entry info_field) (length bs) (entry-Keeps (length bs)) _
        rest (record { public_size = refl; disco_size = tt; psk_size = tt }) small)

-- What an accepted address is good for: keys of the right size, none of them zero but the
-- preshared one, and a relay region, by its number or embedded.
pub record IsAccepted (i : ConnInfo) : Type 0 where
  pub keys : HasKeys i
  pub public_set : all_zero i.server_public ≡ false
  pub disco_set : is_zero_key i.server_disco_public ≡ false
  pub routed : (nonzero i.region_id || has_regions i.regions) ≡ true

-- Only the region's number may change at the end.
default_region_id-IsAccepted :
    (i : ConnInfo) (rs : List DerpRegion)
    → HasKeys i
    → all_zero i.server_public ≡ false
    → is_zero_key i.server_disco_public ≡ false
    → (not (nonzero (default_region_id i rs).region_id)
        && not (has_regions (default_region_id i rs).regions))
      ≡ false
    → IsAccepted (default_region_id i rs)
unfolding default_region_id
default_region_id-IsAccepted i [] v p d r = record {
  keys = v;
  public_set = p;
  disco_set = d;
  routed = ground arith;
}
default_region_id-IsAccepted i (x ∷ rs) v p d r = elim (Bool-cases (nonzero i.region_id)) [
  | inl e ↦
      let r' = rw e at r in
      rw e (record { keys = v; public_set = p; disco_set = d; routed = ground arith })
  | inr e ↦
      let r' = rw e at r in
      let keys : HasKeys (record i { region_id = x.region_id }) = record {
        public_size = v.public_size;
        disco_size = v.disco_size;
        psk_size = v.psk_size;
      } in
      rw e (record { keys = keys; public_set = p; disco_set = d; routed = ground arith })
]

check_info-IsAccepted :
    (s : ParseState) (rest : Bytes) → StateHasKeys s → Ensures IsAccepted (check_info s rest)
unfolding check_info
check_info-IsAccepted s rest v =
    let i = default_region_id s.info s.info.regions in
    Ensures-bind (throw_if-Ensures (not (empty rest)) "tailcat address: trailing CBOR data") (λ _ _.
      Ensures-bind
        (throw_if-Ensures (not s.have_public || all_zero s.info.server_public)
          "tailcat address: missing or zero ServerPublic")
        (λ _ p.
          Ensures-bind
            (throw_if-Ensures (is_zero_key s.info.server_disco_public)
              "tailcat address: zero ServerDiscoPublic")
            (λ _ d.
              Ensures-bind
                (throw_if-Ensures (not (nonzero i.region_id) && not (has_regions i.regions))
                  "tailcat address: missing DERP region")
                (λ _ r.
                  returns
                    (default_region_id-IsAccepted s.info s.info.regions v (ground arith) d r)))))

-- parse_tailcat_addr ends on every text: it throws, or it returns an address whose keys have 32
-- bytes, whose server key and, if there is one, disco key are not zero, and which has a region
-- number or a region.
pub parse_tailcat_addr-IsAccepted : (addr : Bytes) → Ensures IsAccepted (parse_tailcat_addr addr)
unfolding parse_tailcat_addr
parse_tailcat_addr-IsAccepted addr =
    Ensures-bind
      (throw_if-Ensures (not (starts_with addr (codes "tc")))
        "tailcat address: doesn't start with \"tc\"")
      (λ _ _.
        Ensures-bind (rethrow-Ends "tailcat address: base64 decode: " _ (decode-Ends (drop 2 addr)))
          (λ raw _.
            Ensures-bind (read_info-Keeps raw)
              (λ (s, rest) (v, _). check_info-IsAccepted s rest v)))
