-- ===== src/Common/Maps.antt =====
-- `std::map` with byte strings as keys: an association list. The order of its entries is not observed.
use mathlib.Core.Path.{◌≡◌, refl}
use mathlib.Core.Logic.{inl, inr}
use mathlib.Core.Bool.{Bool, true, false}
use mathlib.Core.Option.{Option, none, some}
use mathlib.Core.List.{List, [], ◌∷◌}
use tailcat_in_c.Common.Tests.{if◌then◌else◌, Bool-cases}
use tailcat_in_c.Common.Octets.{Bytes, bytes_eq, bytes_eq_sound, bytes_eq_refl}

abbrev pub ByteMap : Type 0 → Type 0
ByteMap A = List (Bytes × A)

module _ {A : Type 0} where
  abbrev pub find : Bytes → ByteMap A → Option A
  find k [] = none
  find k ((k', a) ∷ m) = if bytes_eq k k' then some a else find k m

  -- `m.emplace(k, a)` changes nothing when the key is there.
  abbrev pub emplace : Bytes → A → ByteMap A → ByteMap A
  emplace k a [] = (k, a) ∷ []
  emplace k a ((k', a') ∷ m) =
      let rest = emplace k a m in if bytes_eq k k' then (k', a') ∷ m else (k', a') ∷ rest

  -- The object that the map holds for a key, changed in place.
  abbrev pub update : Bytes → (A → A) → ByteMap A → ByteMap A
  update k f [] = []
  update k f ((k', a) ∷ m) =
      let rest = update k f m in if bytes_eq k k' then (k', f a) ∷ m else (k', a) ∷ rest

  -- `P` holds of every entry.
  abbrev pub Entries : (Bytes → A → Type 0) → ByteMap A → Type 0
  Entries P [] = Unit
  Entries P ((k, a) ∷ m) = P k a × Entries P m

module _ {A : Type 0} (P : Bytes → A → Type 0) where
  pub find-Entries : (k : Bytes) (m : ByteMap A) {a : A} → Entries P m → find k m ≡ some a → P k a
  find-Entries k [] h e = cc
  find-Entries k ((k', b) ∷ m) {a} h e = elim (Bool-cases (bytes_eq k k')) [
    | inl t ↦ let same : b ≡ a = cc (rw t at e) in rw (bytes_eq_sound k k' t, ← same) (h.0)
    | inr f ↦ find-Entries k m (h.1) (rw f at e)
  ]

  pub emplace-Entries :
      (k : Bytes) (a : A) (m : ByteMap A) → P k a → Entries P m → Entries P (emplace k a m)
  emplace-Entries k a [] p h = (p, tt)
  emplace-Entries k a ((k', b) ∷ m) p h = elim (Bool-cases (bytes_eq k k')) [
    | inl t ↦ rw t h
    | inr f ↦ rw f (h.0, emplace-Entries k a m p (h.1))
  ]

  pub update-Entries :
      (k : Bytes) (f : A → A) (m : ByteMap A)
      → ((a : A) → P k a → P k (f a))
      → Entries P m
      → Entries P (update k f m)
  update-Entries k f [] p h = tt
  update-Entries k f ((k', b) ∷ m) p h = elim (Bool-cases (bytes_eq k k')) [
    | inl t ↦ rw t ((rw (bytes_eq_sound k k' t) at p) b (h.0), h.1)
    | inr n ↦ rw n (h.0, update-Entries k f m p (h.1))
  ]

pub Entries-map :
    {A : Type 0} (P Q : Bytes → A → Type 0) (m : ByteMap A)
    → ((k : Bytes) (a : A) → P k a → Q k a)
    → Entries P m
    → Entries Q m
Entries-map P Q [] f h = tt
Entries-map P Q ((k, a) ∷ m) f h = (f k a (h.0), Entries-map P Q m f (h.1))

module _ {A : Type 0} where
  pub find-emplace :
      (k : Bytes) (a : A) (m : ByteMap A) → find k m ≡ none → find k (emplace k a m) ≡ some a
  find-emplace k a [] h = rw (bytes_eq_refl k)
  find-emplace k a ((k', b) ∷ m) h = elim (Bool-cases (bytes_eq k k')) [
    | inl t ↦ cc (rw t at h)
    | inr f ↦ rw (f, f) (find-emplace k a m (rw f at h))
  ]

  pub find-update :
      (k : Bytes) (f : A → A) (m : ByteMap A) {a : A}
      → find k m ≡ some a
      → find k (update k f m) ≡ some (f a)
  find-update k f [] h = cc
  find-update k f ((k', b) ∷ m) {a} h = elim (Bool-cases (bytes_eq k k')) [
    | inl t ↦ let same : b ≡ a = cc (rw t at h) in rw (t, t, same)
    | inr n ↦ rw (n, n) (find-update k f m (rw n at h))
  ]

  pub find-emplace_ne :
      (k k' : Bytes) (a : A) (m : ByteMap A)
      → bytes_eq k k' ≡ false
      → find k (emplace k' a m) ≡ find k m
  find-emplace_ne k k' a [] h = rw h
  find-emplace_ne k k' a ((q, b) ∷ m) h = elim (Bool-cases (bytes_eq k' q)) [
    | inl t ↦ rw t
    | inr f ↦ rw (f, find-emplace_ne k k' a m h)
  ]

module _ {A : Type 0} where
  -- `m.find(k) != m.end()`
  abbrev pub present : Bytes → ByteMap A → Bool
  present k [] = false
  present k ((k', a) ∷ m) = if bytes_eq k k' then true else present k m

  pub present-update :
      (k k' : Bytes) (f : A → A) (m : ByteMap A) → present k (update k' f m) ≡ present k m
  present-update k k' f [] = refl
  present-update k k' f ((q, b) ∷ m) = elim (Bool-cases (bytes_eq k' q)) [
    | inl t ↦ rw t
    | inr n ↦ rw (n, present-update k k' f m)
  ]

  pub present-emplace :
      (k k' : Bytes) (a : A) (m : ByteMap A)
      → present k m ≡ true
      → present k (emplace k' a m) ≡ true
  present-emplace k k' a [] h = cc
  present-emplace k k' a ((q, b) ∷ m) h = elim (Bool-cases (bytes_eq k' q)) [
    | inl t ↦ rw t h
    | inr n ↦ rw n (elim (Bool-cases (bytes_eq k q)) [
      | inl t' ↦ rw t'
      | inr n' ↦ rw n' (present-emplace k k' a m (rw n' at h))
    ])
  ]

  pub present-emplace_same : (k : Bytes) (a : A) (m : ByteMap A) → present k (emplace k a m) ≡ true
  present-emplace_same k a [] = rw (bytes_eq_refl k)
  present-emplace_same k a ((q, b) ∷ m) = elim (Bool-cases (bytes_eq k q)) [
    | inl t ↦ rw (t, t)
    | inr n ↦ rw (n, n) (present-emplace_same k a m)
  ]

  pub present-find :
      (k : Bytes) (m : ByteMap A) → present k m ≡ true → (a : A) × (find k m ≡ some a)
  present-find k [] h = cc
  present-find k ((q, b) ∷ m) h = elim (Bool-cases (bytes_eq k q)) [
    | inl t ↦ (b, rw t)
    | inr n ↦ let (a, e) = present-find k m (rw n at h) in (a, rw n e)
  ]
