-- ===== src/Protocol/Cbor/Reader.antt =====
-- CborReader of src/protocol.cpp.
use Prim.Native.String.{String}
use tailcat_in_c.Common.{
  ℕ, zero, suc, ◌+◌, ◌-◌, ◌*◌, ◌/◌, ◌%◌, ◌^◌, bit_and, bit_or, shl, shr, Bool, true, false, List,
  [], ◌∷◌, Bytes, length, take, drop, ltb, ◌==◌, if◌then◌else◌, Result, Error, ok, err,
  runtime_error, out_of_fuel,
}
use tailcat_in_c.Common
use tailcat_in_c.Protocol.Cbor.Int64.{ℤ, pos, negsuc}

-- An operation reads from the rest of the input and leaves what it did not read.
abbrev pub Reader : Type 0 → Type 0
Reader A = Bytes → Result (A × Bytes)

abbrev pub pure : {A : Type 0} → A → Reader A
pure a bs = ok (a, bs)

-- Each message is written with the prefix that parse_error puts in front of it.
abbrev pub parse_error : {A : Type 0} → String → Reader A
parse_error m bs = err (runtime_error m)

infixl 5 ◌>>=◌ ◌>>◌
abbrev pub ◌>>=◌ : {A B : Type 0} → Reader A → (A → Reader B) → Reader B
◌>>=◌ p f bs = Common.◌>>=◌ (p bs) (λ (a, rest). f a rest)

abbrev pub ◌>>◌ : {B : Type 0} → Reader (Unit {0}) → Reader B → Reader B
p >> q = p >>= λ _. q

-- `n > data_.size() - pos_` throws.
unfoldable pub require : ℕ → Reader (Unit {0})
require n bs =
    if ltb (length bs) n then err (runtime_error "tailcat address: truncated CBOR") else ok (tt, bs)

-- `size_t` has 64 bits.
unfoldable pub require_len : ℕ → Reader (Unit {0})
require_len n =
    if ltb (2 ^ 64 - 1) n then parse_error "tailcat address: CBOR length overflow" else require n

-- `data_[pos_++]`, after `require`.
unfoldable pub next_byte : Reader ℕ
next_byte [] = err (runtime_error "tailcat address: truncated CBOR")
next_byte (b ∷ bs) = ok (b, bs)

-- `for (i = 0; i < n; ++i) value = (value << 8U) | data_[pos_++];`
unfoldable pub read_uint : ℕ → ℕ → Reader ℕ
read_uint zero value bs = ok (value, bs)
read_uint (suc n) value [] = err (runtime_error "tailcat address: truncated CBOR")
read_uint (suc n) value (b ∷ bs) = read_uint n (bit_or (shl 64 value 8) b) bs

-- The size of the argument by the additional information.
unfoldable pub argument_size : ℕ → ℕ
argument_size ai =
    if ai == 24
    then 1
    else if ai == 25
    then 2
    else if ai == 26
    then 4
    else if ai == 27
    then 8
    else 0

unfoldable pub read_argument : ℕ → Reader ℕ
unfolding argument_size
read_argument ai =
    if ltb ai 24
    then pure ai
    else if ai == 31
    then parse_error "tailcat address: indefinite-length CBOR is not accepted"
    else if argument_size ai == 0
    then parse_error "tailcat address: invalid CBOR additional information"
    else (do require (argument_size ai); read_uint (argument_size ai) 0)

-- The major type and the argument.
unfoldable pub head : Reader (ℕ × ℕ)
head = do
  require 1
  first ← next_byte
  value ← read_argument (bit_and first 31)
  pure (shr first 5, value)

unfoldable pub expect_major : ℕ → Reader ℕ
expect_major want = do
  (major, value) ← head
  if major == want then pure value else parse_error "tailcat address: unexpected CBOR type"

unfoldable pub map_size : Reader ℕ
map_size = expect_major 5

unfoldable pub array_size : Reader ℕ
array_size = expect_major 4

-- The bytes from `pos_` on, and the move of `pos_` behind them.
unfoldable pub take_bytes : ℕ → Reader Bytes
take_bytes n bs = ok (take n bs, drop n bs)

unfoldable pub text : Reader Bytes
unfolding take_bytes
text = do len ← expect_major 3; require_len len; take_bytes len

unfoldable pub bytes : Reader Bytes
unfolding take_bytes
bytes = do len ← expect_major 2; require_len len; take_bytes len

abbrev signed : ℕ → ℕ → Reader ℤ
signed major value =
    if major == 0
    then (if ltb (2 ^ 63 - 1) value
        then parse_error "tailcat address: integer overflow"
        else pure (pos value))
    else if major == 1
    then (if ltb (2 ^ 63 - 1) value
        then parse_error "tailcat address: negative integer overflow"
        else pure (negsuc value))
    else parse_error "tailcat address: expected integer"

unfoldable pub integer : Reader ℤ
integer = do (major, value) ← head; signed major value

abbrev as_boolean : ℕ → Reader Bool
as_boolean b =
    if b == 0xf4
    then pure false
    else if b == 0xf5
    then pure true
    else parse_error "tailcat address: expected boolean"

unfoldable pub boolean : Reader Bool
boolean = do require 1; b ← next_byte; as_boolean b

-- `for (i = 0; i < n; ++i)` over a state.
unfoldable pub for_count : {S : Type 0} → ℕ → (S → Reader S) → S → Reader S
for_count zero body s bs = ok (s, bs)
for_count (suc n) body s bs = Common.◌>>=◌ (body s bs) (λ (s', rest). for_count n body s' rest)

-- The body of `skip`, given the call that it makes of itself.
unfoldable pub skip_item : Reader (Unit {0}) → ℕ → ℕ → Reader (Unit {0})
skip_item again major value =
    if major == 0
    then pure tt
    else if major == 1
    then pure tt
    else if major == 7
    then pure tt
    else if major == 2
    then (do require_len value; _ ← take_bytes value; pure tt)
    else if major == 3
    then (do require_len value; _ ← take_bytes value; pure tt)
    else if major == 4
    then for_count value (λ _. again) tt
    else if major == 5
    then for_count value (λ _. (do again; again)) tt
    else if major == 6
    then again
    else parse_error "tailcat address: unsupported CBOR major type"

-- Each nested call reads a byte at least, so the fuel is a depth.
unfoldable pub skip_depth : ℕ → Reader (Unit {0})
skip_depth zero bs = err out_of_fuel
skip_depth (suc f) bs = Common.◌>>=◌ (head bs) (λ (h, rest). skip_item (skip_depth f) h.0 h.1 rest)

unfoldable pub skip : Reader (Unit {0})
skip bs = skip_depth (suc (length bs)) bs
