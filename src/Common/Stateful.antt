-- ===== src/Common/Stateful.antt =====
-- Code that changes an object and may throw: an exception leaves the object as it was changed so far.
use mathlib.Core.Path.{◌≡◌, refl}
use mathlib.Core.Bool.{Bool, true, false}
use tailcat_in_c.Common.Tests.{if◌then◌else◌}
use tailcat_in_c.Common.Outcome.{Error, Result, ok, err}

abbrev pub Run : Type 0 → Type 0 → Type 0
Run S A = S → Result A × S

module _ {S A : Type 0} where
  unfoldable pub done : A → Run S A
  done a s = (ok a, s)

  unfoldable pub throw : Error → Run S A
  throw e s = (err e, s)

  -- Code that reads the object or changes it by itself, and code that goes on with the object in hand.
  unfoldable pub step : (S → Result A × S) → Run S A
  step f s = f s

  unfoldable pub reading : (S → Run S A) → Run S A
  reading f s = f s s

module _ {S A B : Type 0} where
  -- `f` goes on where a run returned.
  abbrev pub go_on : (A → Run S B) → Result A × S → Result B × S
  go_on f (ok a, s) = f a s
  go_on f (err e, s) = (err e, s)

  unfoldable pub and_then : Run S A → (A → Run S B) → Run S B
  and_then m f s = go_on f (m s)

-- A property of the object that a run keeps, however it ends.
pub record Maintains {S A : Type 0} (P : S → Type 0) (m : Run S A) : Type 0 where
  pub keeps : (s : S) → P s → P ((m s).1)

module _ {S A : Type 0} (P : S → Type 0) where
  pub done-Maintains : (a : A) → Maintains P (done {S = S} a)
  unfolding done
  done-Maintains a = record { keeps = λ s h. h }

  pub throw-Maintains : (e : Error) → Maintains P (throw {S = S} {A = A} e)
  unfolding throw
  throw-Maintains e = record { keeps = λ s h. h }

  pub step-Maintains : (f : S → Result A × S) → ((s : S) → P s → P ((f s).1)) → Maintains P (step f)
  unfolding step
  step-Maintains f k = record { keeps = k }

  pub reading-Maintains :
      (f : S → Run S A) → ((s : S) → P s → P ((f s s).1)) → Maintains P (reading f)
  unfolding reading
  reading-Maintains f k = record { keeps = k }

  pub if-Maintains :
      (b : Bool) {p q : Run S A}
      → (b ≡ true → Maintains P p)
      → (b ≡ false → Maintains P q)
      → Maintains P (if b then p else q)
  if-Maintains true hp hq = hp refl
  if-Maintains false hp hq = hq refl

module _ {S A B : Type 0} (P : S → Type 0) where
  go_on-keeps :
      (f : A → Run S B) (r : Result A × S)
      → P (r.1)
      → ((a : A) → Maintains P (f a))
      → P ((go_on f r).1)
  go_on-keeps f (ok a, s) h k = (k a).keeps s h
  go_on-keeps f (err e, s) h k = h

  pub and_then-Maintains :
      {m : Run S A} {f : A → Run S B}
      → Maintains P m
      → ((a : A) → Maintains P (f a))
      → Maintains P (and_then m f)
  unfolding and_then
  and_then-Maintains {m} {f} hm hf = record { keeps = λ s h. go_on-keeps f (m s) (hm.keeps s h) hf }

-- What a run leaves: `Q` of a returned value and the object, `E` of an exception.
abbrev pub After : {S A : Type 0} → (A → S → Type 0) → (Error → Type 0) → Result A × S → Type 0
After Q E (ok a, s) = Q a s
After Q E (err e, s) = E e

-- From an object with `P`, a run ends in `Q` or in an exception with `E`.
pub record Triple {S A : Type 0} (P : S → Type 0) (m : Run S A) (Q : A → S → Type 0)
    (E : Error → Type 0) : Type 0 where
  pub runs : (s : S) → P s → After Q E (m s)

module _ {S A : Type 0} {P : S → Type 0} {Q : A → S → Type 0} {E : Error → Type 0} where
  pub done-Triple : (a : A) → ((s : S) → P s → Q a s) → Triple P (done a) Q E
  unfolding done
  done-Triple a k = record { runs = k }

  pub throw-Triple : (e : Error) → E e → Triple P (throw e) Q E
  unfolding throw
  throw-Triple e h = record { runs = λ s _. h }

  pub if-Triple :
      (b : Bool) {p q : Run S A}
      → (b ≡ true → Triple P p Q E)
      → (b ≡ false → Triple P q Q E)
      → Triple P (if b then p else q) Q E
  if-Triple true hp hq = hp refl
  if-Triple false hp hq = hq refl

  pub weaken-Triple :
      {P' : S → Type 0} {m : Run S A} → ((s : S) → P' s → P s) → Triple P m Q E → Triple P' m Q E
  weaken-Triple k t = record { runs = λ s h. t.runs s (k s h) }

module _ {S A B : Type 0} (R : A → S → Type 0) {Q : B → S → Type 0} {E : Error → Type 0} where
  go_on-After :
      (f : A → Run S B) (r : Result A × S)
      → After R E r
      → ((a : A) → Triple (R a) (f a) Q E)
      → After Q E (go_on f r)
  go_on-After f (ok a, s) h k = (k a).runs s h
  go_on-After f (err e, s) h k = h

  pub and_then-Triple :
      {P : S → Type 0} {m : Run S A} {f : A → Run S B}
      → Triple P m R E
      → ((a : A) → Triple (R a) (f a) Q E)
      → Triple P (and_then m f) Q E
  unfolding and_then
  and_then-Triple {P} {m} {f} t k = record { runs = λ s h. go_on-After f (m s) (t.runs s h) k }

pub After-map :
    {S A : Type 0} {Q Q' : A → S → Type 0} (E : Error → Type 0) (r : Result A × S)
    → ((a : A) (s : S) → Q a s → Q' a s)
    → After Q E r
    → After Q' E r
After-map E (ok a, s) k h = k a s h
After-map E (err e, s) k h = h

-- How a run with `P` at its start leaves the object: with `P` behind a return, with `E` behind an exception.
abbrev pub Kept : {S A : Type 0} → (S → Type 0) → (S → Type 0) → Result A × S → Type 0
Kept P E (ok a, s) = P s
Kept P E (err e, s) = E s

pub record Guards {S A : Type 0} (P E : S → Type 0) (m : Run S A) : Type 0 where
  pub guards : (s : S) → P s → Kept P E (m s)

module _ {S A : Type 0} (P E : S → Type 0) where
  pub done-Guards : (a : A) → Guards P E (done {S = S} a)
  unfolding done
  done-Guards a = record { guards = λ s h. h }

  pub step-Guards : (f : S → Result A × S) → ((s : S) → P s → Kept P E (f s)) → Guards P E (step f)
  unfolding step
  step-Guards f k = record { guards = k }

  pub reading-Guards :
      (f : S → Run S A) → ((s : S) → P s → Kept P E (f s s)) → Guards P E (reading f)
  unfolding reading
  reading-Guards f k = record { guards = k }

  pub if-Guards :
      (b : Bool) {p q : Run S A}
      → (b ≡ true → Guards P E p)
      → (b ≡ false → Guards P E q)
      → Guards P E (if b then p else q)
  if-Guards true hp hq = hp refl
  if-Guards false hp hq = hq refl

module _ {S A B : Type 0} (P E : S → Type 0) where
  go_on-Kept :
      (f : A → Run S B) (r : Result A × S)
      → Kept P E r
      → ((a : A) → Guards P E (f a))
      → Kept P E (go_on f r)
  go_on-Kept f (ok a, s) h k = (k a).guards s h
  go_on-Kept f (err e, s) h k = h

  pub and_then-Guards :
      {m : Run S A} {f : A → Run S B}
      → Guards P E m
      → ((a : A) → Guards P E (f a))
      → Guards P E (and_then m f)
  unfolding and_then
  and_then-Guards {m} {f} hm hf = record { guards = λ s h. go_on-Kept f (m s) (hm.guards s h) hf }

pub if-Kept :
    {S A : Type 0} (P E : S → Type 0) (b : Bool) (p q : Result A × S)
    → (b ≡ true → Kept P E p)
    → (b ≡ false → Kept P E q)
    → Kept P E (if b then p else q)
if-Kept P E true p q hp hq = hp refl
if-Kept P E false p q hp hq = hq refl
