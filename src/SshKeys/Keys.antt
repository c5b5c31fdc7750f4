-- ===== src/SshKeys/Keys.antt =====
-- The keys that src/ssh_authorized_keys.cpp returns.
use tailcat_in_c.Common.{
  ◌==◌, ◌≡◌, refl, ap, subst, true, false, ◌&&◌, ◌||◌, not, List, [], ◌∷◌, ◌++◌, Option, none, some,
  Bytes, bytes_eq, bytes_eq_refl, bytes_eq_sound, empty, split_on, get_or, if-holds, if-cases, inl,
  inr, Bool-cases, Each, Each-append, ok, throw_if-ok, >>=-ok, ok-injective, arith,
}
use tailcat_in_c.SshKeys.{
  has, add_unique, append_unique, first_word, second_word, trim, without_return, Libssh, Sources,
  exported, canonical, line_key, lines_loop, is_none, parse_ssh_authorized_keys_text, github_name,
  source_text, split_sources, load_loop, load_ssh_authorized_key_blobs,
}

-- No key twice.
abbrev pub AreDistinct : List Bytes → Type 0
AreDistinct [] = Unit
AreDistinct (key ∷ keys) = (has key keys ≡ false) × AreDistinct keys

has-append :
    (key new : Bytes) (keys : List Bytes)
    → has key keys ≡ false
    → bytes_eq new key ≡ false
    → has key (keys ++ (new ∷ [])) ≡ false
unfolding has
has-append key new [] h n = rw n refl
has-append key new (other ∷ keys) h n = elim (if-cases (bytes_eq other key) h) [
  | inl (_, f) ↦ absurd (cc)
  | inr (differs, f) ↦ rw (differs, has-append key new keys f n) refl
]

bytes_eq-false : (xs ys : Bytes) → bytes_eq xs ys ≡ false → bytes_eq ys xs ≡ false
bytes_eq-false xs ys h = elim (Bool-cases (bytes_eq ys xs)) [
  | inl e ↦ absurd (cc (bytes_eq_refl xs, bytes_eq_sound ys xs e))
  | inr e ↦ e
]

AreDistinct-append :
    (keys : List Bytes) (new : Bytes)
    → AreDistinct keys
    → has new keys ≡ false
    → AreDistinct (keys ++ (new ∷ []))
unfolding has
AreDistinct-append [] new d h = (refl, tt)
AreDistinct-append (key ∷ keys) new d h = elim (if-cases (bytes_eq key new) h) [
  | inl (_, f) ↦ absurd (cc)
  | inr (differs, f) ↦ (
    has-append key new keys d.0 (bytes_eq-false key new differs),
    AreDistinct-append keys new d.1 f,
  )
]

module _ {K : Type 0} (libssh : Libssh K) where
  -- The canonical text of a key that libssh imports under a type that it knows.
  pub record IsCanonical (blob : Bytes) : Type 0 where
    pub type : Bytes
    pub encoded : Bytes
    pub key : K
    pub known : libssh.is_known_type type ≡ true
    pub imported : libssh.import_pubkey encoded type ≡ some key
    pub exported : libssh.export_pubkey key ≡ some blob

  abbrev pub AreKeys : List Bytes → Type 0
  AreKeys keys = AreDistinct keys × Each IsCanonical keys

  exported-ok : (o : Option Bytes) (blob : Bytes) → exported libssh o ≡ ok blob → o ≡ some blob
  exported-ok none blob e = absurd (cc)
  exported-ok (some text) blob e = ap some (ok-injective e)

  canonical-ok :
      (o : Option K) (blob : Bytes)
      → canonical libssh o ≡ ok blob
      → (key : K) × (o ≡ some key) × (libssh.export_pubkey key ≡ some blob)
  canonical-ok none blob e = absurd (cc)
  canonical-ok (some key) blob e = (key, refl, exported-ok (libssh.export_pubkey key) blob e)

  line_key-IsCanonical :
      (cleaned blob : Bytes) → line_key libssh cleaned ≡ ok blob → IsCanonical blob
  unfolding line_key
  line_key-IsCanonical cleaned blob e =
      let valid =
        throw_if-ok
          (empty (first_word cleaned)
            || (empty (second_word cleaned) || not (libssh.is_known_type (first_word cleaned))))
          _ e in
      let found =
        canonical-ok (libssh.import_pubkey (second_word cleaned) (first_word cleaned)) blob
          valid.1 in
      record {
        type = first_word cleaned;
        encoded = second_word cleaned;
        key = found.0;
        known = ground arith;
        imported = found.1;
        exported = found.2;
      }

  add_unique-AreKeys :
      (keys : List Bytes) (key : Bytes)
      → AreKeys keys
      → IsCanonical key
      → AreKeys (add_unique keys key)
  add_unique-AreKeys keys key h k =
      if-holds AreKeys (has key keys) (λ _. h)
        (λ n. (AreDistinct-append keys key h.0 n, Each-append IsCanonical keys _ h.1 (k, tt)))

  append_unique-AreKeys :
      (keys more : List Bytes)
      → AreKeys keys
      → Each IsCanonical more
      → AreKeys (append_unique keys more)
  unfolding append_unique
  append_unique-AreKeys keys [] h m = h
  append_unique-AreKeys keys (key ∷ more) h m =
      append_unique-AreKeys (add_unique keys key) more (add_unique-AreKeys keys key h m.0) m.1

  lines_loop-AreKeys :
      (keys lines result : List Bytes)
      → AreKeys keys
      → lines_loop libssh keys lines ≡ ok result
      → AreKeys result
  unfolding lines_loop
  lines_loop-AreKeys keys [] result h e = subst AreKeys (ok-injective e) h
  lines_loop-AreKeys keys (line ∷ lines) result h e =
      let cleaned = trim (without_return line) in
      elim (if-cases (not (empty cleaned) && not (get_or cleaned 0 0 == b'#')) e) [
        | inl (_, f) ↦
            let found = >>=-ok (line_key libssh cleaned) f in
            lines_loop-AreKeys (add_unique keys found.0) lines result
              (add_unique-AreKeys keys found.0 h (line_key-IsCanonical cleaned found.0 found.1))
              found.2
        | inr (_, f) ↦ lines_loop-AreKeys keys lines result h f
      ]

  parse-AreKeys :
      (text : Bytes) (keys : List Bytes)
      → parse_ssh_authorized_keys_text libssh text ≡ ok keys
      → AreKeys keys
  unfolding parse_ssh_authorized_keys_text
  parse-AreKeys text keys e =
      let found = >>=-ok (lines_loop libssh [] (split_on 10 text)) e in
      let some_key = throw_if-ok (is_none libssh found.0) _ found.2 in
      subst AreKeys (ok-injective some_key.1)
        (lines_loop-AreKeys [] (split_on 10 text) found.0 (tt, tt) found.1)

  module _ (outside : Sources) where
    load_loop-AreKeys :
        (keys sources result : List Bytes)
        → AreKeys keys
        → load_loop libssh outside keys sources ≡ ok result
        → AreKeys result
    unfolding load_loop
    load_loop-AreKeys keys [] result h e = subst AreKeys (ok-injective e) h
    load_loop-AreKeys keys (source ∷ sources) result h e =
        let name = >>=-ok (github_name source) e in
        let text = >>=-ok (source_text libssh outside source name.0) name.2 in
        let more = >>=-ok (parse_ssh_authorized_keys_text libssh text.0) text.2 in
        load_loop-AreKeys (append_unique keys more.0) sources result
          (append_unique-AreKeys keys more.0 h (parse-AreKeys text.0 more.0 more.1).1) more.2

    -- If load_ssh_authorized_key_blobs returns, it returns at least one key and none twice, and
    -- each is the canonical text that libssh exports of a key that it imported under a type that it
    -- knows.
    pub load-AreKeys :
        (sources : Bytes) (keys : List Bytes)
        → load_ssh_authorized_key_blobs libssh outside sources ≡ ok keys
        → AreKeys keys × (is_none libssh keys ≡ false)
    unfolding load_ssh_authorized_key_blobs
    load-AreKeys sources keys e =
        let given = throw_if-ok (empty (trim sources)) _ e in
        let items = >>=-ok (split_sources sources) given.1 in
        let found = >>=-ok (load_loop libssh outside [] items.0) items.2 in
        let some_key = throw_if-ok (is_none libssh found.0) _ found.2 in
        subst (λ keys. AreKeys keys × (is_none libssh keys ≡ false)) (ok-injective some_key.1)
          (load_loop-AreKeys [] items.0 found.0 (tt, tt) found.1, some_key.0)
