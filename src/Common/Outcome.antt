-- ===== src/Common/Outcome.antt =====
-- The outcome of code that throws, and postconditions on it. The exceptions of the program carry
-- their message; `out_of_fuel` has no counterpart in the program.
use Prim.Native.String.{String}
use mathlib.Core.Path.{◌≡◌, refl, subst}
use mathlib.Core.Logic.{◌≢◌, ◌⊎◌, inl, inr}
use mathlib.Core.Bool.{Bool, true, false}
use tailcat_in_c.Common.Tests.{if◌then◌else◌}

pub data Error : Type 0 where
  runtime_error invalid_argument length_error : String → Error
  out_of_fuel : Error

pub data Result {ℓ} (A : Type ℓ) : Type ℓ where
  ok : A → Result A
  err : Error → Result A

module _ {ℓ κ} {A : Type ℓ} {B : Type κ} where
  infixl 5 ◌>>=◌
  abbrev pub ◌>>=◌ : Result A → (A → Result B) → Result B
  ok a >>= f = f a
  err e >>= f = err e

infixl 5 ◌>>◌
abbrev pub ◌>>◌ {ℓ} : {B : Type ℓ} → Result (Unit {0}) → Result B → Result B
first >> next = first >>= (λ _. next)

-- `if (bad) throw e;`
abbrev pub throw_if : Bool → Error → Result (Unit {0})
throw_if true e = err e
throw_if false e = ok tt

pub Result-cases {ℓ} :
    {A : Type ℓ} (r : Result A) → ((a : A) × (r ≡ ok a)) ⊎ ((e : Error) × (r ≡ err e))
Result-cases (ok a) = inl (a, refl)
Result-cases (err e) = inr (e, refl)

-- The run kept within its fuel, and `P` holds of its value if it returned one.
pub data Ensures {ℓ κ} {A : Type ℓ} (P : A → Type κ) : Result A → Type (ℓ ⊔ κ) where
  returns : {a : A} → P a → Ensures P (ok a)
  throws : {e : Error} → e ≢ out_of_fuel → Ensures P (err e)

module _ {ℓ κ} {A : Type ℓ} {P : A → Type κ} where
  pub Ensures-ok : {r : Result A} {a : A} → Ensures P r → r ≡ ok a → P a
  Ensures-ok (returns h) e = subst P (cc) h
  Ensures-ok (throws n) e = cc

  pub Ensures-ne : {r : Result A} → Ensures P r → r ≢ err out_of_fuel
  Ensures-ne (returns h) e = cc
  Ensures-ne (throws n) e = n (cc)

  pub Ensures-if :
      (b : Bool) {x y : Result A} → Ensures P x → Ensures P y → Ensures P (if b then x else y)
  Ensures-if true hx hy = hx
  Ensures-if false hx hy = hy

  pub Ensures-bind {ℓ' κ'} :
      {B : Type ℓ'} {Q : B → Type κ'} {r : Result A} {f : A → Result B}
      → Ensures P r
      → ((a : A) → P a → Ensures Q (f a))
      → Ensures Q (r >>= f)
  Ensures-bind (returns {a} h) k = k a h
  Ensures-bind (throws n) k = throws n

pub Ensures-mono {ℓ κ κ'} :
    {A : Type ℓ} {P : A → Type κ} {Q : A → Type κ'} {r : Result A}
    → ((a : A) → P a → Q a)
    → Ensures P r
    → Ensures Q r
Ensures-mono k (returns {a} h) = returns (k a h)
Ensures-mono k (throws n) = throws n

-- No exception of the program is a lack of fuel.
pub runtime-ne : {m : String} → runtime_error m ≢ out_of_fuel
runtime-ne e = cc

pub invalid-ne : {m : String} → invalid_argument m ≢ out_of_fuel
invalid-ne e = cc

-- What a run that returned tells of its parts.
pub throw_if-ok {ℓ} :
    {A : Type ℓ} (bad : Bool) (e : Error) {r : Result A} {a : A}
    → (throw_if bad e >> r) ≡ ok a
    → (bad ≡ false) × (r ≡ ok a)
throw_if-ok true e h = absurd (cc)
throw_if-ok false e h = (refl, h)

pub >>=-ok {ℓ κ} :
    {A : Type ℓ} {B : Type κ} (r : Result A) {f : A → Result B} {b : B}
    → (r >>= f) ≡ ok b
    → (a : A) × (r ≡ ok a) × (f a ≡ ok b)
>>=-ok (ok a) h = (a, refl, h)
>>=-ok (err e) h = absurd (cc)

pub ok-injective {ℓ} : {A : Type ℓ} {a b : A} → ok a ≡ ok b → a ≡ b
ok-injective e = cc
