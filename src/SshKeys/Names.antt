-- ===== src/SshKeys/Names.antt =====
-- The names and items that src/ssh_authorized_keys.cpp takes from the value of an option.
use tailcat_in_c.Common.{
  ℕ, ◌-◌, ◌≤◌, ltb, ◌==◌, ◌≡◌, ◌≢◌, refl, sym, ◌∙◌, ap, subst, true, false, ◌&&◌, ◌||◌, not, List,
  [], ◌∷◌, ◌++◌, some, Bytes, bytes_eq_sound, contains, empty, to_first, split_on, length, get_or,
  take, drop, take-append-drop, if-holds, if-cases, inl, inr, Each, ok, throw_if-ok, >>=-ok,
  ok-injective, arith,
}
use tailcat_in_c.SshKeys.{
  is_space, trim_front, trim_back, trim, github_suffix, ends_with, are_name_bytes, github_name,
  trim_all, split_sources,
}

-- A name that may stand in a URL of GitHub.
pub record IsUserName (name : Bytes) : Type 0 where
  pub not_empty : empty name ≡ false
  pub at_most : length name ≤ 39
  pub no_dash_first : get_or name 0 0 ≢ b'-'
  pub no_dash_last : get_or name (length name - 1) 0 ≢ b'-'
  pub name_bytes : are_name_bytes name ≡ true

some-injective : {A : Type 0} {a b : A} → some a ≡ some b → a ≡ b
some-injective e = cc

checked :
    (name : Bytes)
    → (empty name
        || (ltb 39 (length name)
            || (get_or name 0 0 == b'-' || get_or name (length name - 1) 0 == b'-')))
      ≡ false
    → not (are_name_bytes name) ≡ false
    → IsUserName name
checked name h n = record {
  not_empty = ground arith;
  at_most = ground arith;
  no_dash_first = λ e. ground arith;
  no_dash_last = λ e. ground arith;
  name_bytes = ground arith;
}

-- If github_name finds a name, the source is the name with `@github` behind it, and the name has 1
-- to 39 letters, digits and dashes, with no dash at its ends.
pub github_name-IsUserName :
    (source name : Bytes)
    → github_name source ≡ ok (some name)
    → (source ≡ name ++ github_suffix) × IsUserName name
unfolding github_name
github_name-IsUserName source name e = elim (if-cases (not (ends_with source github_suffix)) e) [
  | inl (other, f) ↦ absurd (cc (ok-injective f))
  | inr (suffixed, f) ↦
      let user = take (length source - length github_suffix) source in
      let first =
        throw_if-ok
          (empty user
            || (ltb 39 (length user)
                || (get_or user 0 0 == b'-' || get_or user (length user - 1) 0 == b'-')))
          _ f in
      let second = throw_if-ok (not (are_name_bytes user)) _ first.1 in
      let same = some-injective (ok-injective second.1) in
      let at_end =
        bytes_eq_sound (drop (length source - length github_suffix) source) github_suffix
          (ground arith) in
      (
        sym (take-append-drop (length source - length github_suffix) source)
            ∙ ap (λ rest. user ++ rest) at_end
            ∙ ap (λ u. u ++ github_suffix) same,
        subst IsUserName same (checked user first.0 second.0),
      )
]

to_first-Each :
    (c x : ℕ) (parts : List Bytes)
    → (x == c) ≡ false
    → Each (λ part. contains c part ≡ false) parts
    → Each (λ part. contains c part ≡ false) (to_first x parts)
to_first-Each c x [] n h = (rw n refl, tt)
to_first-Each c x (part ∷ parts) n h = (rw (n, h.0) refl, h.1)

parts-no_comma : (c : ℕ) (text : Bytes) → Each (λ part. contains c part ≡ false) (split_on c text)
unfolding split_on
parts-no_comma c [] = (refl, tt)
parts-no_comma c (x ∷ text) =
    if-holds (Each (λ part. contains c part ≡ false)) (x == c) (λ _. (refl, parts-no_comma c text))
      (λ n. to_first-Each c x (split_on c text) n (parts-no_comma c text))

trim_front-contains :
    (c : ℕ) (text : Bytes) → contains c text ≡ false → contains c (trim_front text) ≡ false
unfolding trim_front
trim_front-contains c [] h = refl
trim_front-contains c (x ∷ text) h =
    if-holds (λ t. contains c t ≡ false) (is_space x)
      (λ _. trim_front-contains c text (ground arith)) (λ _. h)

trim_back-contains :
    (c : ℕ) (text : Bytes) → contains c text ≡ false → contains c (trim_back text) ≡ false
unfolding trim_back
trim_back-contains c [] h = refl
trim_back-contains c (x ∷ text) h =
    let more = trim_back-contains c text (ground arith) in
    if-holds (λ t. contains c t ≡ false) (empty (trim_back text) && is_space x) (λ _. refl)
      (λ _. ground arith)

trim_all-items :
    (parts items : List Bytes)
    → Each (λ part. contains b',' part ≡ false) parts
    → trim_all parts ≡ ok items
    → Each (λ item. (empty item ≡ false) × (contains b',' item ≡ false)) items
unfolding trim
trim_all-items [] items h e =
    subst (Each (λ item. (empty item ≡ false) × (contains b',' item ≡ false))) (ok-injective e) tt
trim_all-items (part ∷ parts) items h e =
    let some_text = throw_if-ok (empty (trim part)) _ e in
    let more = >>=-ok (trim_all parts) some_text.1 in
    subst (Each (λ item. (empty item ≡ false) × (contains b',' item ≡ false))) (ok-injective more.2)
      (
        (
          some_text.0,
          trim_back-contains b',' (trim_front part) (trim_front-contains b',' part h.0),
        ),
        trim_all-items parts more.0 h.1 more.1,
      )

-- The items between the commas.
pub split_sources-items :
    (sources : Bytes) (items : List Bytes)
    → split_sources sources ≡ ok items
    → Each (λ item. (empty item ≡ false) × (contains b',' item ≡ false)) items
unfolding split_sources
split_sources-items sources items e =
    trim_all-items (split_on b',' sources) items (parts-no_comma b',' sources) e
