-- ===== src/Protocol/Cbor/Total.antt =====
-- CborReader: every typed read ends, by a value or an exception, and takes input only from the front.
use tailcat_in_c.Common.{ℕ, ◌-◌, ◌^◌, ◌≤◌, arith, Bytes, length, ltb, ◌==◌, returns, Ensures-bind}
use tailcat_in_c.Protocol.Cbor.Reader
use tailcat_in_c.Protocol.Cbor.Reader.{
  Reader, require, require_len, next_byte, head, expect_major, map_size, array_size, take_bytes,
  text, bytes, integer, boolean,
}
use tailcat_in_c.Protocol.Cbor.Skip.{
  Leaves, Leaves-if, require-Leaves, require_len-Leaves, throws_runtime, head-Leaves,
  take_bytes-Leaves, next_byte-Shortens,
}

pub expect_major-Leaves :
    (want : ℕ) (bs : Bytes) (n : ℕ) → length bs ≤ n → Leaves n (expect_major want bs)
unfolding expect_major
expect_major-Leaves want bs n h = Ensures-bind (head-Leaves bs n h) (λ ((major, value), rest) small.
    Leaves-if (major == want) _ _ rest n (returns small) throws_runtime)

pub map_size-Leaves : (bs : Bytes) (n : ℕ) → length bs ≤ n → Leaves n (map_size bs)
unfolding map_size
map_size-Leaves bs n h = expect_major-Leaves 5 bs n h

pub array_size-Leaves : (bs : Bytes) (n : ℕ) → length bs ≤ n → Leaves n (array_size bs)
unfolding array_size
array_size-Leaves bs n h = expect_major-Leaves 4 bs n h

string-Leaves :
    (len : ℕ) (bs : Bytes) (n : ℕ)
    → length bs ≤ n
    → Leaves n (Reader.◌>>◌ (require_len len) (take_bytes len) bs)
string-Leaves len bs n h =
    Ensures-bind (require_len-Leaves len bs n h)
      (λ (_, rest) small. take_bytes-Leaves len rest n small)

pub text-Leaves : (bs : Bytes) (n : ℕ) → length bs ≤ n → Leaves n (text bs)
unfolding text
text-Leaves bs n h =
    Ensures-bind (expect_major-Leaves 3 bs n h)
      (λ (len, rest) small. string-Leaves len rest n small)

pub bytes-Leaves : (bs : Bytes) (n : ℕ) → length bs ≤ n → Leaves n (bytes bs)
unfolding bytes
bytes-Leaves bs n h =
    Ensures-bind (expect_major-Leaves 2 bs n h)
      (λ (len, rest) small. string-Leaves len rest n small)

pub integer-Leaves : (bs : Bytes) (n : ℕ) → length bs ≤ n → Leaves n (integer bs)
unfolding integer
integer-Leaves bs n h = Ensures-bind (head-Leaves bs n h) (λ ((major, value), rest) small.
    Leaves-if (major == 0) _ _ rest n
      (Leaves-if (ltb (2 ^ 63 - 1) value) _ _ rest n throws_runtime (returns small))
      (Leaves-if (major == 1) _ _ rest n
        (Leaves-if (ltb (2 ^ 63 - 1) value) _ _ rest n throws_runtime (returns small))
        throws_runtime))

pub boolean-Leaves : (bs : Bytes) (n : ℕ) → length bs ≤ n → Leaves n (boolean bs)
unfolding boolean
boolean-Leaves bs n h = Ensures-bind (require-Leaves 1 bs n h) (λ (_, bs1) h1.
    Ensures-bind (next_byte-Shortens bs1 n h1) (λ (b, bs2) h2.
      Leaves-if (b == 0xf4) _ _ bs2 n (returns (omega arith))
        (Leaves-if (b == 0xf5) _ _ bs2 n (returns (omega arith)) throws_runtime)))
