-- ===== src/Protocol/Cbor/Skip.antt =====
-- CborReader: every operation ends, takes input only from the front, and `skip` has fuel enough.
use Prim.Native.String.{String}
use tailcat_in_c.Common.{
  ℕ, zero, suc, ◌^◌, Ensures-mono, ◌-◌, ◌≤◌, ◌<◌, bit_and, ◌≢◌, Bool, true, false, [], ◌∷◌, arith,
  Bytes, length, length-drop, ltb, ◌==◌, if◌then◌else◌, Result, err, runtime_error, out_of_fuel,
  runtime-ne, Ensures, returns, throws, Ensures-bind, Ensures-if, Ensures-ne,
}
use tailcat_in_c.Protocol.Cbor.Reader
use tailcat_in_c.Protocol.Cbor.Reader.{
  Reader, require, require_len, next_byte, read_uint, argument_size, read_argument, head,
  take_bytes, for_count, skip_item, skip_depth, skip,
}

-- A run from `bs` that returns leaves at most `n` bytes.
abbrev pub Leaves : {A : Type 0} → ℕ → Result (A × Bytes) → Type 0
Leaves {A} n = Ensures (λ (p : A × Bytes). length p.1 ≤ n)

pub throws_runtime : {A : Type 0} {n : ℕ} {m : String} → Leaves {A = A} n (err (runtime_error m))
throws_runtime = throws runtime-ne

pub Leaves-if :
    {A : Type 0} (b : Bool) (p q : Reader A) (bs : Bytes) (n : ℕ)
    → Leaves n (p bs)
    → Leaves n (q bs)
    → Leaves n ((if b then p else q) bs)
Leaves-if true p q bs n hp hq = hp
Leaves-if false p q bs n hp hq = hq

pub require-Leaves : (k : ℕ) (bs : Bytes) (n : ℕ) → length bs ≤ n → Leaves n (require k bs)
unfolding require
require-Leaves k bs n h = Ensures-if (ltb (length bs) k) throws_runtime (returns h)

pub require_len-Leaves : (k : ℕ) (bs : Bytes) (n : ℕ) → length bs ≤ n → Leaves n (require_len k bs)
unfolding require_len
require_len-Leaves k bs n h =
    Leaves-if (ltb (2 ^ 64 - 1) k) _ _ bs n throws_runtime (require-Leaves k bs n h)

read_uint-Leaves :
    (k value : ℕ) (bs : Bytes) (n : ℕ) → length bs ≤ n → Leaves n (read_uint k value bs)
unfolding read_uint
read_uint-Leaves zero value bs n h = returns h
read_uint-Leaves (suc k) value [] n h = throws_runtime
read_uint-Leaves (suc k) value (b ∷ bs) n h = read_uint-Leaves k _ bs n (omega arith)

pub Leaves-mono : {A : Type 0} (m n : ℕ) {r : Result (A × Bytes)} → m ≤ n → Leaves m r → Leaves n r
Leaves-mono m n h = Ensures-mono (λ p k. omega arith)

read_argument-Leaves :
    (ai : ℕ) (bs : Bytes) (n : ℕ) → length bs ≤ n → Leaves n (read_argument ai bs)
unfolding read_argument
read_argument-Leaves ai bs n h = Leaves-if (ltb ai 24) _ _ bs n (returns h) (
    Leaves-if (ai == 31) _ _ bs n throws_runtime (
      Leaves-if (argument_size ai == 0) _ _ bs n throws_runtime (
        Ensures-bind (require-Leaves (argument_size ai) bs n h)
          (λ (_, rest) small. read_uint-Leaves (argument_size ai) 0 rest n small))))

-- A head takes a byte at least.
abbrev pub Shortens : {A : Type 0} → ℕ → Result (A × Bytes) → Type 0
Shortens {A} n = Ensures (λ (p : A × Bytes). length p.1 < n)

pub next_byte-Shortens : (bs : Bytes) (n : ℕ) → length bs ≤ n → Shortens n (next_byte bs)
unfolding next_byte
next_byte-Shortens [] n h = throws runtime-ne
next_byte-Shortens (b ∷ bs) n h = returns h

pub head-Shortens : (bs : Bytes) (n : ℕ) → length bs ≤ n → Shortens n (head bs)
unfolding head
head-Shortens bs n h = Ensures-bind (require-Leaves 1 bs n h) (λ (_, bs1) h1.
    Ensures-bind (next_byte-Shortens bs1 n h1) (λ (first, bs2) h2.
      Ensures-bind (read_argument-Leaves (bit_and first 31) bs2 (n - 1) (omega arith))
        (λ (value, bs3) h3. returns (omega arith))))

pub head-Leaves : (bs : Bytes) (n : ℕ) → length bs ≤ n → Leaves n (head bs)
head-Leaves bs n h = Ensures-mono (λ p k. omega arith) (head-Shortens bs n h)

pub take_bytes-Leaves : (k : ℕ) (bs : Bytes) (n : ℕ) → length bs ≤ n → Leaves n (take_bytes k bs)
unfolding take_bytes
take_bytes-Leaves k bs n h = returns (omega (arith, length-drop k bs))

-- A loop over an operation that takes from the front does so too.
pub for_count-Leaves :
    {S : Type 0} (k : ℕ) (body : S → Reader S) (n : ℕ)
    → ((s : S) (bs : Bytes) → length bs ≤ n → Leaves n (body s bs))
    → (s : S) (bs : Bytes) → length bs ≤ n
    → Leaves n (for_count k body s bs)
unfolding for_count
for_count-Leaves zero body n each s bs h = returns h
for_count-Leaves (suc k) body n each s bs h =
    Ensures-bind (each s bs h) (λ (s', rest) small. for_count-Leaves k body n each s' rest small)

skip_item-Leaves :
    (again : Reader (Unit {0})) (major value n : ℕ)
    → ((bs : Bytes) → length bs ≤ n → Leaves n (again bs))
    → (bs : Bytes) → length bs ≤ n
    → Leaves n (skip_item again major value bs)
unfolding skip_item
skip_item-Leaves again major value n each bs h = Leaves-if (major == 0) _ _ bs n (returns h) (
    Leaves-if (major == 1) _ _ bs n (returns h) (
      Leaves-if (major == 7) _ _ bs n (returns h) (
        Leaves-if (major == 2) _ _ bs n jump (
          Leaves-if (major == 3) _ _ bs n jump (
            Leaves-if (major == 4) _ _ bs n
              (for_count-Leaves value (λ _. again) n (λ _ bs' h'. each bs' h') tt bs h)
              (Leaves-if (major == 5) _ _ bs n
                (for_count-Leaves value (λ _. Reader.◌>>◌ again again) n
                  (λ _ bs' h'. Ensures-bind (each bs' h') (λ (_, rest) small. each rest small)) tt
                  bs h)
                (Leaves-if (major == 6) _ _ bs n (each bs h) throws_runtime)))))))
  where
    jump :
        Leaves n (
          Reader.◌>>◌
            (require_len value)
            (Reader.◌>>=◌ (take_bytes value) (λ _. Reader.pure tt))
            bs)
    jump =
        Ensures-bind (require_len-Leaves value bs n h) (λ (_, bs1) h1.
          Ensures-bind (take_bytes-Leaves value bs1 n h1) (λ (_, bs2) h2. returns h2))

skip_depth-Leaves :
    (f : ℕ) (bs : Bytes) (n : ℕ) → length bs ≤ n → n < f → Leaves n (skip_depth f bs)
unfolding skip_depth
skip_depth-Leaves zero bs n h lt = absurd (omega arith)
skip_depth-Leaves (suc f) bs n h lt = Ensures-bind (head-Shortens bs n h) (λ (item, rest) small.
    Leaves-mono (n - 1) n (omega arith) (
      skip_item-Leaves (skip_depth f) item.0 item.1 (n - 1)
        (λ bs' h'. skip_depth-Leaves f bs' (n - 1) h' (omega arith)) rest (omega arith)))

-- CborReader::skip ends on every input, within its fuel: it throws, or it leaves no more bytes than
-- there were.
pub skip-Leaves : (bs : Bytes) (n : ℕ) → length bs ≤ n → Leaves n (skip bs)
unfolding skip
skip-Leaves bs n h =
    Leaves-mono (length bs) n h
      (skip_depth-Leaves (suc (length bs)) bs (length bs) (omega arith) (omega arith))

pub skip-ne-out_of_fuel : (bs : Bytes) → skip bs ≢ err out_of_fuel
skip-ne-out_of_fuel bs = Ensures-ne (skip-Leaves bs (length bs) (omega arith))
