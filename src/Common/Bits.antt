-- ===== src/Common/Bits.antt =====
-- Machine words: shifts that keep a width, and `|` and `&` as arithmetic on fields that are disjoint.
use mathlib.Core.Path.{ap, ◌≡◌, refl}
use native.Mathlib.Nat.{pow-suc, one-le-pow, le_refl}
use native.Mathlib.Omega.{arith}
use Prim.Native.Nat.{
  bitwise, digits, bit_or-bitwise, bit_and-bitwise, bit_or, bit_and, max, min, ◌<◌, ◌≤◌, ◌^◌, ◌%◌,
  ◌/◌, ◌*◌, ◌-◌, ◌+◌, suc, zero, ℕ,
}

-- `x >> k`
abbrev pub shr : ℕ → ℕ → ℕ
shr x k = x / 2 ^ k

-- `x << k` in an unsigned type of `width` bits
abbrev pub shl : ℕ → ℕ → ℕ → ℕ
shl width x k = x * 2 ^ k % 2 ^ width

-- `digits` walks down the first number, so that any count which covers it gives the same digits.
module _ (left : ℕ → ℕ) (op : ℕ → ℕ → ℕ) where
  spare_count : (x y i j : ℕ) → x ≤ i → x ≤ j → digits left op i x y ≡ digits left op j x y
  spare_count (suc x) y (suc i) (suc j) hi hj =
      rw (spare_count (suc x / 2) (y / 2) i j (omega arith) (omega arith))
  spare_count (suc x) y zero j hi hj = absurd (omega arith)
  spare_count (suc x) y (suc i) zero hi hj = absurd (omega arith)
  spare_count zero y zero zero hi hj = refl
  spare_count zero zero zero (suc j) hi hj = refl
  spare_count zero (suc y) zero (suc j) hi hj = refl
  spare_count zero zero (suc i) zero hi hj = refl
  spare_count zero (suc y) (suc i) zero hi hj = refl
  spare_count zero zero (suc i) (suc j) hi hj = refl
  spare_count zero (suc y) (suc i) (suc j) hi hj = refl

  last_digit :
      (x y : ℕ)
      → op (suc x % 2) (y % 2) + 2 * bitwise left op (suc x / 2) (y / 2) ≡ bitwise left op (suc x) y
  last_digit x y =
      omega (arith, spare_count (suc x / 2) (y / 2) x (suc x / 2) (omega arith) (le_refl _))

bit_or-low : (x y : ℕ) → max (x % 2) (y % 2) + 2 * bit_or (x / 2) (y / 2) ≡ bit_or x y
bit_or-low (suc x) y = simp bit_or-bitwise (last_digit (λ t. t) max x y)
bit_or-low zero y = simp bit_or-bitwise (omega arith)

bit_and-low : (x y : ℕ) → min (x % 2) (y % 2) + 2 * bit_and (x / 2) (y / 2) ≡ bit_and x y
bit_and-low (suc x) y = simp bit_and-bitwise (last_digit (λ _. 0) min x y)
bit_and-low zero y = simp bit_and-bitwise (omega arith)

-- Halving `x` comes down to 0 within `i` rounds.
bit_or-zero : (x i : ℕ) → x ≤ i → bit_or x 0 ≡ x
bit_or-zero (suc x) (suc i) h =
    omega (arith, bit_or-zero (suc x / 2) i (omega arith), bit_or-low (suc x) 0)
bit_or-zero (suc x) zero h = absurd (omega arith)
bit_or-zero zero i h = refl

bit_and-zero : (x i : ℕ) → x ≤ i → bit_and x 0 ≡ 0
bit_and-zero (suc x) (suc i) h =
    omega (arith, bit_and-zero (suc x / 2) i (omega arith), bit_and-low (suc x) 0)
bit_and-zero (suc x) zero h = absurd (omega arith)
bit_and-zero zero i h = refl

shift_once : (k x : ℕ) → 2 * (x * 2 ^ k) ≡ x * 2 ^ suc k
shift_once k x = omega (arith, ap (λ (t : ℕ). x * t) (pow-suc 2 k))

-- Or with a number below the lowest set bit adds it.
pub bit_or_disjoint : (k x low : ℕ) → low < 2 ^ k → bit_or (x * 2 ^ k) low ≡ x * 2 ^ k + low
bit_or_disjoint (suc k) x low h = ground (
  arith,
  bit_or_disjoint k x (low / 2) (omega arith),
  shift_once k x,
  bit_or-low (x * 2 ^ suc k) low,
)
bit_or_disjoint zero x low h = ground (arith, bit_or-zero x x)

keep_low : (k x low : ℕ) → low < 2 ^ k → bit_and (x * 2 ^ k + low) (2 ^ k - 1) ≡ low
keep_low (suc k) x low h = ground (
  arith,
  keep_low k x (low / 2) (omega arith),
  pow-suc 2 k,
  shift_once k x,
  bit_and-low (x * 2 ^ suc k + low) (2 ^ suc k - 1),
)
keep_low zero x low h = omega (arith, bit_and-zero (x * 2 ^ 0 + low) (x * 2 ^ 0 + low) (le_refl _))

-- And with `k` ones is the remainder.
pub bit_and_mask : (k x : ℕ) → bit_and x (2 ^ k - 1) ≡ x % 2 ^ k
bit_and_mask k x = ground (arith, keep_low k (x / 2 ^ k) (x % 2 ^ k), one-le-pow k 2)
