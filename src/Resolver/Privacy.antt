-- ===== src/Resolver/Privacy.antt =====
-- What src/address_resolver.cpp asks DNS for, and what it takes from the answer.
use tailcat_in_c.Common.{
  ◌≡◌, refl, sym, ◌∙◌, subst, true, false, not, ◌⊎◌, inl, inr, List, [], ◌∷◌, Bytes, bytes_eq,
  bytes_eq_sound, starts_with, contains, empty, length, drop, if◌then◌else◌, if-cases, Bool-cases,
  Each, Result, Result-cases, ok, ◌>>◌, throw_if, throw_if-ok, >>=-ok, ok-injective, arith,
  invalid_argument,
}
use tailcat_in_c.Resolver.{
  ResolvedTailcatAddress, is_valid, label_is_tailcat_address, labels_of, has_address,
  classify_tailcat_address_argument, txt_prefix, select, tailcat_address_from_txt,
  resolve_tailcat_address_argument,
}

-- A name that may be looked up: it is no address, and none of its labels is one.
pub record IsName (value : Bytes) : Type 0 where
  pub whole : is_valid value ≡ false
  pub labels : Each (λ label. label_is_tailcat_address label ≡ false) (labels_of value)

has_address-Each :
    (labels : List Bytes)
    → has_address labels ≡ false
    → Each (λ label. label_is_tailcat_address label ≡ false) labels
unfolding has_address
has_address-Each [] h = tt
has_address-Each (label ∷ labels) h = elim (Bool-cases (label_is_tailcat_address label)) [
  | inl e ↦ absurd (cc)
  | inr e ↦ (e, has_address-Each labels (ground arith))
]

-- The address itself, or a name to look up.
abbrev pub Classified : Bytes → ResolvedTailcatAddress → Type 0
Classified value r =
    ((r ≡ record { address = value; dns_name = []; via_dns = false }) × (is_valid value ≡ true))
    ⊎ ((r ≡ record { address = []; dns_name = value; via_dns = true }) × IsName value)

-- Behind the test for an empty text.
by_validity :
    (value : Bytes) (r : ResolvedTailcatAddress)
    → (if is_valid value
        then ok (record { address = value; dns_name = []; via_dns = false })
        else (throw_if
              (not (contains b'.' value))
              (invalid_argument "invalid Tailcat address or DNS name")
            >> (throw_if (has_address (labels_of value)) (
                  invalid_argument
                    "refusing DNS lookup: destination contains a Tailcat address as a DNS label")
                >> ok (record { address = []; dns_name = value; via_dns = true }))))
      ≡ ok r
    → Classified value r
by_validity value r = elim (Bool-cases (is_valid value)) [
  | inl v ↦ rw v (λ e. inl (sym (ok-injective e), refl))
  | inr v ↦ rw v (λ e.
      let dotted = throw_if-ok (not (contains b'.' value)) _ e in
      let named = throw_if-ok (has_address (labels_of value)) _ dotted.1 in
      inr (
        sym (ok-injective named.1),
        record { whole = v; labels = has_address-Each (labels_of value) named.0 },
      ))
]

-- If classify_tailcat_address_argument returns, it returns a valid address for itself and nothing
-- to look up, or a name to look up that is no valid address and none of whose labels between dots
-- is one.
pub classify-Classified :
    (value : Bytes) (r : ResolvedTailcatAddress)
    → classify_tailcat_address_argument value ≡ ok r
    → Classified value r
unfolding classify_tailcat_address_argument
classify-Classified value r e = by_validity value r (throw_if-ok (empty value) _ e).1

-- A destination is resolved alike with two DNS servers that answer alike to every name that is no
-- valid address and has none as a label: nothing else of the servers enters.
pub resolve-names :
    (query query' : Bytes → Result Bytes) (value : Bytes)
    → ((name : Bytes) → IsName name → query name ≡ query' name)
    → resolve_tailcat_address_argument query value ≡ resolve_tailcat_address_argument query' value
unfolding resolve_tailcat_address_argument
resolve-names query query' value same =
    elim (Result-cases (classify_tailcat_address_argument value)) [
      | inr (x, e) ↦ rw e refl
      | inl (r, e) ↦ elim (classify-Classified value r e) [
        | inl (direct, v) ↦ rw (e, direct) refl
        | inr (named, name) ↦ rw (e, named, same value name) refl
      ]
    ]

-- The text behind the prefix.
abbrev pub value_of : Bytes → Bytes
value_of entry = drop (length txt_prefix) entry

-- Every record with the prefix has `a` behind it, and one does.
abbrev pub AllHold : Bytes → List Bytes → Type 0
AllHold a entries = Each (λ entry. starts_with entry txt_prefix ≡ true → value_of entry ≡ a) entries

abbrev pub OneHolds : Bytes → List Bytes → Type 0
OneHolds a [] = ⊥
OneHolds a (entry ∷ entries) =
    ((starts_with entry txt_prefix ≡ true) × (value_of entry ≡ a)) ⊎ OneHolds a entries

-- What the loop selects.
record Selects (selected : Bytes) (entries : List Bytes) (a : Bytes) : Type 0 where
  all_hold : AllHold a entries
  kept : empty selected ≡ false → a ≡ selected
  one_holds : empty selected ≡ true → empty a ≡ false → OneHolds a entries
  valid : (empty selected ≡ false → is_valid selected ≡ true) → empty a ≡ false → is_valid a ≡ true

module _ (selected entry : Bytes) (entries : List Bytes) (a : Bytes) where
  passed_over :
      starts_with entry txt_prefix ≡ false
      → Selects selected entries a
      → Selects selected (entry ∷ entries) a
  passed_over other h = record {
    all_hold = ((λ p. absurd (cc)), h.all_hold);
    kept = h.kept;
    one_holds = λ e n. inr (h.one_holds e n);
    valid = h.valid;
  }

  first_taken :
      starts_with entry txt_prefix ≡ true
      → empty selected ≡ true
      → empty (value_of entry) ≡ false
      → is_valid (value_of entry) ≡ true
      → Selects (value_of entry) entries a
      → Selects selected (entry ∷ entries) a
  first_taken p none some v h = record {
    all_hold = ((λ _. sym (h.kept some)), h.all_hold);
    kept = λ n. absurd (cc);
    one_holds = λ _ _. inl (p, sym (h.kept some));
    valid = λ _ n. h.valid (λ _. v) n;
  }

  again :
      empty selected ≡ false
      → bytes_eq selected (value_of entry) ≡ true
      → Selects selected entries a
      → Selects selected (entry ∷ entries) a
  again some same h = record {
    all_hold = (
      (λ _. sym (bytes_eq_sound selected (value_of entry) same) ∙ sym (h.kept some)),
      h.all_hold,
    );
    kept = h.kept;
    one_holds = λ none. absurd (cc);
    valid = h.valid;
  }

select-Selects :
    (selected : Bytes) (entries : List Bytes) (a : Bytes)
    → select selected entries ≡ ok a
    → Selects selected entries a
unfolding select
select-Selects selected [] a = λ e. record {
  all_hold = tt;
  kept = λ _. sym (ok-injective e);
  one_holds = λ none some. absurd (cc (ok-injective e));
  valid = λ v n. rw⁻¹ (ok-injective e) (v (rw (ok-injective e) n));
}
select-Selects selected (entry ∷ entries) a = elim (Bool-cases (starts_with entry txt_prefix)) [
  | inr other ↦
      rw other
        (λ e. passed_over selected entry entries a other (select-Selects selected entries a e))
  | inl p ↦ rw p (λ e.
      let some = throw_if-ok (empty (value_of entry)) _ e in
      let v = throw_if-ok (not (is_valid (value_of entry))) _ some.1 in
      elim (if-cases (empty selected) v.1) [
        | inl (none, more) ↦
            first_taken selected entry entries a p none some.0 (ground arith)
              (select-Selects (value_of entry) entries a more)
        | inr (seen, more) ↦
            let same = throw_if-ok (not (bytes_eq selected (value_of entry))) _ more in
            again selected entry entries a seen (ground arith)
              (select-Selects selected entries a same.1)
      ])
]

-- If tailcat_address_from_txt returns an address, it is valid, a record holds it behind the prefix,
-- and every record with the prefix holds the same.
pub from_txt-holds :
    (entries : List Bytes) (a : Bytes)
    → tailcat_address_from_txt entries ≡ ok a
    → AllHold a entries × OneHolds a entries × (is_valid a ≡ true)
unfolding tailcat_address_from_txt
from_txt-holds entries a e =
    let found = >>=-ok (select [] entries) e in
    let some = throw_if-ok (empty found.0) _ found.2 in
    let h = select-Selects [] entries found.0 found.1 in
    subst (λ a. AllHold a entries × OneHolds a entries × (is_valid a ≡ true)) (ok-injective some.1)
      (h.all_hold, h.one_holds refl some.0, h.valid (λ n. absurd (cc)) some.0)
