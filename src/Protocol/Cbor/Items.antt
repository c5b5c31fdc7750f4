-- ===== src/Protocol/Cbor/Items.antt =====
-- The typed items of CborReader and CborWriter, against each other.
use tailcat_in_c.Common.{
  ℕ, zero, suc, ◌+◌, ◌-◌, ◌*◌, ◌/◌, ◌%◌, ◌^◌, ◌≤◌, ◌<◌, bit_or, shl, ◌≡◌, refl, ap, ◌∙◌, Bool, true,
  false, ◌⊎◌, inl, inr, List, [], ◌∷◌, ◌++◌, map, append_assoc, arith, Bytes, IsBytes,
  IsBytes-append, length, length-append, take, drop, take-append, drop-append, ltb, leb, ◌==◌,
  if◌then◌else◌, Bool-cases, Result, ok, err,
}
use tailcat_in_c.Common
use tailcat_in_c.Protocol.Cbor.Int64.{ℤ, pos, negsuc, IsInt64}
use tailcat_in_c.Protocol.Cbor.Reader
use tailcat_in_c.Protocol.Cbor.Reader.{Reader}
use tailcat_in_c.Protocol.Cbor.Writer
use tailcat_in_c.Protocol.Cbor.RoundTrip.{head-head, require_enough}

pub expect_major-head :
    (major v : ℕ) (rest : Bytes)
    → major < 8
    → v < 2 ^ 64
    → Reader.expect_major major (Writer.head major v ++ rest) ≡ ok (v, rest)
unfolding Reader.expect_major
expect_major-head major v rest hm hv = rw (head-head major v rest hm hv) (ground arith)

pub map_size-map_head :
    (n : ℕ) (rest : Bytes) → n < 2 ^ 64 → Reader.map_size (Writer.map_head n ++ rest) ≡ ok (n, rest)
unfolding Reader.map_size Writer.map_head
map_size-map_head n rest h = expect_major-head 5 n rest (omega arith) h

pub array_size-array :
    (n : ℕ) (rest : Bytes) → n < 2 ^ 64 → Reader.array_size (Writer.array n ++ rest) ≡ ok (n, rest)
unfolding Reader.array_size Writer.array
array_size-array n rest h = expect_major-head 4 n rest (omega arith) h

require_len_enough :
    (n : ℕ) (bs : Bytes) → n < 2 ^ 64 → n ≤ length bs → Reader.require_len n bs ≡ ok (tt, bs)
unfolding Reader.require_len
require_len_enough n bs h fits = ground (arith, require_enough n bs fits)

require_string :
    (s rest : Bytes)
    → length s < 2 ^ 64
    → Reader.require_len (length s) (s ++ rest) ≡ ok (tt, s ++ rest)
require_string s rest h =
    require_len_enough (length s) (s ++ rest) h (omega (arith, length-append s rest))

take_string : (s rest : Bytes) → Reader.take_bytes (length s) (s ++ rest) ≡ ok (s, rest)
unfolding Reader.take_bytes
take_string s rest = rw (take-append s rest, drop-append s rest)

-- A text item read back, whatever follows it.
pub text-text :
    (s rest : Bytes) → length s < 2 ^ 64 → Reader.text (Writer.text s ++ rest) ≡ ok (s, rest)
unfolding Reader.text Writer.text
text-text s rest h =
    rw
      (
        append_assoc (Writer.head 3 (length s)) s rest,
        expect_major-head 3 (length s) (s ++ rest) (omega arith) h,
        require_string s rest h,
      )
      (take_string s rest)

pub bytes-bytes :
    (s rest : Bytes) → length s < 2 ^ 64 → Reader.bytes (Writer.bytes s ++ rest) ≡ ok (s, rest)
unfolding Reader.bytes Writer.bytes
bytes-bytes s rest h =
    rw
      (
        append_assoc (Writer.head 2 (length s)) s rest,
        expect_major-head 2 (length s) (s ++ rest) (omega arith) h,
        require_string s rest h,
      )
      (take_string s rest)

-- CborReader::integer gives back every int64 that CborWriter::integer wrote, the negative ones too,
-- and leaves what follows.
pub integer-integer :
    (z : ℤ) (rest : Bytes) → IsInt64 z → Reader.integer (Writer.integer z ++ rest) ≡ ok (z, rest)
unfolding Reader.integer Writer.integer
integer-integer (pos n) rest h = rw (head-head 0 n rest (omega arith) (omega arith)) (ground arith)
integer-integer (negsuc n) rest h =
    rw (head-head 1 n rest (omega arith) (omega arith)) (ground arith)

pub boolean-boolean :
    (b : Bool) (rest : Bytes) → Reader.boolean (Writer.boolean b ++ rest) ≡ ok (b, rest)
unfolding Reader.boolean Writer.boolean Reader.next_byte
boolean-boolean true rest = rw (require_enough 1 (0xf5 ∷ rest) (omega arith))
boolean-boolean false rest = rw (require_enough 1 (0xf4 ∷ rest) (omega arith))

-- What the writer appends are bytes.
octet_small : (m : ℕ) → m % 256 < 256
octet_small m = omega arith

first_small : (major ai : ℕ) → major < 8 → ai < 32 → bit_or (shl 8 major 5) ai < 256
first_small major ai hm ha =
    let e : shl 8 major 5 ≡ major * 2 ^ 5 = omega arith in
    rw e (omega (arith, Common.bit_or_disjoint 5 major ai ha))

octet_at_small : (v s : ℕ) → Writer.octet_at v s < 256
unfolding Writer.octet_at
octet_at_small v s = octet_small _

octets : (v : ℕ) (shifts : List ℕ) → IsBytes (map (Writer.octet_at v) shifts)
octets v [] = tt
octets v (s ∷ ss) = (octet_at_small v s, octets v ss)

pub head-IsBytes : (major v : ℕ) → major < 8 → IsBytes (Writer.head major v)
unfolding Writer.head
head-IsBytes major v hm = elim (Bool-cases (ltb v 24)) [
  | inl e ↦ rw e (first_small major (v % 256) hm (ground arith), tt)
  | inr e ↦ rw e (elim (Bool-cases (leb v 0xff)) [
    | inl e1 ↦ rw e1 (first_small major 24 hm (omega arith), (octet_small v, tt))
    | inr e1 ↦ rw e1 (elim (Bool-cases (leb v 0xffff)) [
      | inl e2 ↦ rw e2 (first_small major 25 hm (omega arith), octets v (8 ∷ 0 ∷ []))
      | inr e2 ↦ rw e2 (elim (Bool-cases (leb v 0xffffffff)) [
        | inl e3 ↦ rw e3 (first_small major 26 hm (omega arith), octets v (24 ∷ 16 ∷ 8 ∷ 0 ∷ []))
        | inr e3 ↦ rw e3 (
          first_small major 27 hm (omega arith),
          octets v (56 ∷ 48 ∷ 40 ∷ 32 ∷ 24 ∷ 16 ∷ 8 ∷ 0 ∷ []),
        )
      ])
    ])
  ])
]

pub text-IsBytes : (s : Bytes) → IsBytes s → IsBytes (Writer.text s)
unfolding Writer.text
text-IsBytes s h = IsBytes-append (Writer.head 3 (length s)) s (head-IsBytes 3 _ (omega arith)) h

pub bytes-IsBytes : (s : Bytes) → IsBytes s → IsBytes (Writer.bytes s)
unfolding Writer.bytes
bytes-IsBytes s h = IsBytes-append (Writer.head 2 (length s)) s (head-IsBytes 2 _ (omega arith)) h

pub integer-IsBytes : (z : ℤ) → IsBytes (Writer.integer z)
unfolding Writer.integer
integer-IsBytes (pos n) = head-IsBytes 0 n (omega arith)
integer-IsBytes (negsuc n) = head-IsBytes 1 n (omega arith)

pub boolean-IsBytes : (b : Bool) → IsBytes (Writer.boolean b)
unfolding Writer.boolean
boolean-IsBytes true = omega arith
boolean-IsBytes false = omega arith
