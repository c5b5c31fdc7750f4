-- ===== src/Protocol/Cbor/RoundTrip.antt =====
-- What CborWriter appends, CborReader reads off the front of the input.
use tailcat_in_c.Common.{
  ℕ, suc, ◌+◌, ◌*◌, ◌/◌, ◌%◌, ◌^◌, ◌≤◌, ◌<◌, bit_and, bit_or, shl, shr, bit_or_disjoint,
  bit_and_mask, ◌≡◌, refl, ap, ◌∙◌, inl, inr, [], ◌∷◌, ◌++◌, map, arith, Bytes, length, ltb, leb,
  Bool-cases, ok,
}
use tailcat_in_c.Protocol.Cbor.Reader
use tailcat_in_c.Protocol.Cbor.Reader.{Reader, read_uint, read_argument}
use tailcat_in_c.Protocol.Cbor.Writer
use tailcat_in_c.Protocol.Cbor.Writer.{octet_at}

octet_at_lem : (v s : ℕ) → octet_at v s ≡ shr v s % 256
unfolding octet_at
octet_at_lem v s = omega (arith, bit_and_mask 8 (shr v s))

-- One round of the loop that gathers an argument.
gather :
    (n value b : ℕ) (bs : Bytes)
    → value < 2 ^ 56
    → b < 256
    → read_uint (suc n) value (b ∷ bs) ≡ read_uint n (value * 256 + b) bs
unfolding Reader.read_uint
gather n value b bs hv hb =
    let e : shl 64 value 8 ≡ value * 2 ^ 8 = omega arith in rw (e, bit_or_disjoint 8 value b hb)

-- The digits of `v` down to bit `s` have been gathered.
gather_octet :
    (n v s value above : ℕ) (bs : Bytes)
    → value ≡ above
    → above < 2 ^ 56
    → shr v s / 256 ≡ above
    → read_uint (suc n) value (octet_at v s ∷ bs) ≡ read_uint n (shr v s) bs
gather_octet n v s value above bs e h split = rw octet_at_lem (
    gather n value (shr v s % 256) bs (omega arith) (small (shr v s))
    ∙ ap (λ t. read_uint n t bs) (join (shr v s) value (omega arith)))
  where
    small : (m : ℕ) → m % 256 < 256
    small m = omega arith

    join : (m value : ℕ) → value ≡ m / 256 → value * 256 + m % 256 ≡ m
    join m value e = omega arith

gathered : (v : ℕ) (rest : Bytes) → read_uint 0 (shr v 0) rest ≡ ok (v, rest)
unfolding Reader.read_uint
gathered v rest = ap (λ t. ok (t, rest)) (omega arith)

read_one : (v : ℕ) (rest : Bytes) → v < 256 → read_uint 1 0 (v ∷ rest) ≡ ok (v, rest)
read_one v rest h =
    gather 0 0 v rest (omega arith) h ∙ ap (λ t. read_uint 0 t rest) (omega arith) ∙ gathered v rest

read_two :
    (v : ℕ) (rest : Bytes)
    → v < 2 ^ 16
    → read_uint 2 0 (octet_at v 8 ∷ octet_at v 0 ∷ rest) ≡ ok (v, rest)
read_two v rest h =
    gather_octet 1 v 8 0 _ _ refl (omega arith) (omega arith)
    ∙ gather_octet 0 v 0 _ _ _ refl (omega arith) (omega arith)
    ∙ gathered v rest

read_four :
    (v : ℕ) (rest : Bytes)
    → v < 2 ^ 32
    → read_uint 4 0 (map (octet_at v) (24 ∷ 16 ∷ 8 ∷ 0 ∷ []) ++ rest) ≡ ok (v, rest)
read_four v rest h =
    gather_octet 3 v 24 0 _ _ refl (omega arith) (omega arith)
    ∙ gather_octet 2 v 16 _ _ _ refl (omega arith) (omega arith)
    ∙ gather_octet 1 v 8 _ _ _ refl (omega arith) (omega arith)
    ∙ gather_octet 0 v 0 _ _ _ refl (omega arith) (omega arith)
    ∙ gathered v rest

read_eight :
    (v : ℕ) (rest : Bytes)
    → v < 2 ^ 64
    → read_uint 8 0 (map (octet_at v) (56 ∷ 48 ∷ 40 ∷ 32 ∷ 24 ∷ 16 ∷ 8 ∷ 0 ∷ []) ++ rest)
      ≡ ok (v, rest)
read_eight v rest h =
    gather_octet 7 v 56 0 _ _ refl (omega arith) (omega arith)
    ∙ gather_octet 6 v 48 _ _ _ refl (omega arith) (omega arith)
    ∙ gather_octet 5 v 40 _ _ _ refl (omega arith) (omega arith)
    ∙ gather_octet 4 v 32 _ _ _ refl (omega arith) (omega arith)
    ∙ gather_octet 3 v 24 _ _ _ refl (omega arith) (omega arith)
    ∙ gather_octet 2 v 16 _ _ _ refl (omega arith) (omega arith)
    ∙ gather_octet 1 v 8 _ _ _ refl (omega arith) (omega arith)
    ∙ gather_octet 0 v 0 _ _ _ refl (omega arith) (omega arith)
    ∙ gathered v rest

-- An initial byte falls apart into the major type and the additional information.
first_byte : (major ai : ℕ) → major < 8 → ai < 32 → bit_or (shl 8 major 5) ai ≡ major * 32 + ai
first_byte major ai hm ha =
    let e : shl 8 major 5 ≡ major * 2 ^ 5 = omega arith in rw e (bit_or_disjoint 5 major ai ha)

pub require_enough : (n : ℕ) (bs : Bytes) → n ≤ length bs → Reader.require n bs ≡ ok (tt, bs)
unfolding Reader.require
require_enough n bs h = ground arith

head_reads :
    (first value : ℕ) (more rest : Bytes)
    → read_argument (bit_and first 31) more ≡ ok (value, rest)
    → Reader.head (first ∷ more) ≡ ok ((shr first 5, value), rest)
unfolding Reader.head Reader.next_byte
head_reads first value more rest h = rw (require_enough 1 (first ∷ more) (omega arith), h)

head_first :
    (major ai value : ℕ) (more rest : Bytes)
    → major < 8
    → ai < 32
    → read_argument ai more ≡ ok (value, rest)
    → Reader.head (bit_or (shl 8 major 5) ai ∷ more) ≡ ok ((major, value), rest)
head_first major ai value more rest hm ha h = rw (first_byte major ai hm ha) (
    head_reads (major * 32 + ai) value more rest (ap (λ t. read_argument t more) low ∙ h)
    ∙ ap (λ t. ok ((t, value), rest)) high)
  where
    low : bit_and (major * 32 + ai) 31 ≡ ai
    low = bit_and_mask 5 (major * 32 + ai) ∙ omega arith

    high : shr (major * 32 + ai) 5 ≡ major
    high = omega arith

module _ (v : ℕ) (rest : Bytes) where
  argument_small : v < 24 → read_argument v rest ≡ ok (v, rest)
  unfolding Reader.read_argument
  argument_small h = ground arith

  argument_one : v < 256 → read_argument 24 (v ∷ rest) ≡ ok (v, rest)
  unfolding Reader.read_argument
  argument_one h = rw (require_enough 1 (v ∷ rest) (omega arith)) (read_one v rest h)

  argument_two : v < 2 ^ 16 → read_argument 25 (octet_at v 8 ∷ octet_at v 0 ∷ rest) ≡ ok (v, rest)
  unfolding Reader.read_argument
  argument_two h =
      rw (require_enough 2 (octet_at v 8 ∷ octet_at v 0 ∷ rest) (omega arith)) (read_two v rest h)

  argument_four :
      v < 2 ^ 32 → read_argument 26 (map (octet_at v) (24 ∷ 16 ∷ 8 ∷ 0 ∷ []) ++ rest) ≡ ok (v, rest)
  unfolding Reader.read_argument
  argument_four h =
      rw (require_enough 4 (map (octet_at v) (24 ∷ 16 ∷ 8 ∷ 0 ∷ []) ++ rest) (omega arith))
        (read_four v rest h)

  argument_eight :
      v < 2 ^ 64
      → read_argument 27 (map (octet_at v) (56 ∷ 48 ∷ 40 ∷ 32 ∷ 24 ∷ 16 ∷ 8 ∷ 0 ∷ []) ++ rest)
        ≡ ok (v, rest)
  unfolding Reader.read_argument
  argument_eight h =
      rw
        (require_enough 8 (map (octet_at v) (56 ∷ 48 ∷ 40 ∷ 32 ∷ 24 ∷ 16 ∷ 8 ∷ 0 ∷ []) ++ rest)
          (omega arith))
        (read_eight v rest h)

-- CborReader::head gives back the major type and the argument that CborWriter::head wrote, for
-- every major type below 8 and argument below 2^64, and leaves what follows.
pub head-head :
    (major v : ℕ) (rest : Bytes)
    → major < 8
    → v < 2 ^ 64
    → Reader.head (Writer.head major v ++ rest) ≡ ok ((major, v), rest)
unfolding Writer.head
head-head major v rest hm hv = elim (Bool-cases (ltb v 24)) [
  | inl e ↦ rw e (
      head_first major (v % 256) v rest rest hm (ground arith)
        (ap (λ t. read_argument t rest) (ground arith) ∙ argument_small v rest (ground arith)))
  | inr e ↦ rw e (elim (Bool-cases (leb v 0xff)) [
    | inl e1 ↦ rw e1 (
        head_first major 24 v _ rest hm (omega arith) (
          ap (λ t. read_argument 24 (t ∷ rest)) (ground arith)
          ∙ argument_one v rest (ground arith)))
    | inr e1 ↦ rw e1 (elim (Bool-cases (leb v 0xffff)) [
      | inl e2 ↦
          rw e2 (head_first major 25 v _ rest hm (omega arith) (argument_two v rest (ground arith)))
      | inr e2 ↦ rw e2 (elim (Bool-cases (leb v 0xffffffff)) [
        | inl e3 ↦
            rw e3
              (head_first major 26 v _ rest hm (omega arith) (argument_four v rest (ground arith)))
        | inr e3 ↦ rw e3 (head_first major 27 v _ rest hm (omega arith) (argument_eight v rest hv))
      ])
    ])
  ])
]
