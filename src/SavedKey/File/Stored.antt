-- ===== src/SavedKey/File/Stored.antt =====
-- A key that src/saved_key.cpp saved is loaded again.
use tailcat_in_c.Common.{
  ◌≡◌, refl, Option, none, some, Bytes, IsBytes, codes, bytes_eq_refl, length, Result, ok, ◌>>=◌,
  find, zero, suc,
}
use tailcat_in_c.Protocol.Types.{Key32}
use tailcat_in_c.Protocol.Cbor.Int64.{ℤ, pos, negsuc}
use tailcat_in_c.Json.{find_field}
use tailcat_in_c.SavedKey.RoundTrip.{parse_key-hex_key}
use tailcat_in_c.SavedKey.File.{
  SavedTailcatKey, Platform, Crypto, JsonText, Files, resolve_tailcat_key_path, load_psk,
  load_region, public_json, load_json, save_json, opened, save_at, save_tailcat_key,
  load_saved_tailcat_key,
}

-- 32 bytes.
abbrev pub IsKey : Key32 → Type 0
IsKey key = IsBytes key × (length key ≡ 32)

abbrev IsPsk : Option Key32 → Type 0
IsPsk none = Unit
IsPsk (some key) = IsKey key

-- A key as generate_node_key and generate_secret_key make it.
pub record IsSaved (crypto : Crypto) (key : SavedTailcatKey) : Type 0 where
  pub private_key : IsKey key.private_key
  pub public_key : IsKey key.public_key
  pub disco : IsKey (crypto.disco_public key.private_key)
  pub preshared_key : IsPsk key.preshared_key
  pub public_of : crypto.node_public_from_private key.private_key ≡ key.public_key

module _ (crypto : Crypto) (private_key public_key : Key32) where
  load_psk-public_json :
      (psk : Option Key32) (region_id : ℤ)
      → IsPsk psk
      → load_psk crypto (
          public_json crypto (record {
            private_key = private_key;
            public_key = public_key;
            preshared_key = psk;
            region_id = region_id;
          }))
        ≡ ok psk
  unfolding find_field
  load_psk-public_json none (pos zero) h = refl
  load_psk-public_json none (pos (suc n)) h = refl
  load_psk-public_json none (negsuc n) h = refl
  load_psk-public_json (some psk) region_id h =
      rw (parse_key-hex_key (codes "psk:") psk h.0 h.1) refl

  load_region-public_json :
      (psk : Option Key32) (region_id : ℤ)
      → load_region crypto (
          public_json crypto (record {
            private_key = private_key;
            public_key = public_key;
            preshared_key = psk;
            region_id = region_id;
          }))
        ≡ ok region_id
  unfolding find_field
  load_region-public_json none (pos zero) = refl
  load_region-public_json none (pos (suc n)) = refl
  load_region-public_json none (negsuc n) = refl
  load_region-public_json (some psk) (pos zero) = refl
  load_region-public_json (some psk) (pos (suc n)) = refl
  load_region-public_json (some psk) (negsuc n) = refl

module _ (crypto : Crypto) (key : SavedTailcatKey) (h : IsSaved crypto key) where
  load_json-save_json : load_json crypto (save_json crypto key) ≡ ok key
  unfolding load_json save_json find_field
  load_json-save_json =
      rw
        (
          parse_key-hex_key (codes "privkey:") key.private_key h.private_key.0 h.private_key.1,
          parse_key-hex_key (codes "nodekey:") key.public_key h.public_key.0 h.public_key.1,
          h.public_of,
          bytes_eq_refl key.public_key,
          parse_key-hex_key (codes "discokey:") (crypto.disco_public key.private_key) h.disco.0
              h.disco.1,
          bytes_eq_refl (crypto.disco_public key.private_key),
          load_psk-public_json crypto key.private_key key.public_key key.preshared_key key.region_id
              h.preshared_key,
          load_region-public_json crypto key.private_key key.public_key key.preshared_key
              key.region_id,
        )
        refl

  module _ (platform : Platform) (json : JsonText)
      (write : Bytes → Bytes → Result (Unit {0}) × Option Bytes)
      (make_private : Bytes → Result (Unit {0}))
      (reads : json.read (json.dump (save_json crypto key)) ≡ ok (save_json crypto key)) where
    -- A file that was written whole is read.
    at_path :
        (path : Bytes) (files : Files)
        → write path (json.dump (save_json crypto key))
          ≡ (ok tt, some (json.dump (save_json crypto key)))
        → (opened crypto platform json write make_private
              (find path ((save_at crypto platform json write make_private key files (ok path)).1))
            >>= (λ content. json.read content >>= load_json crypto))
          ≡ ok key
    at_path path files w = rw (w, bytes_eq_refl path, reads) load_json-save_json

    -- A key of 32-byte parts, whose public key is that of its private key, is loaded again under
    -- the name that it was saved under, if the name has a path, the file was written whole, and the
    -- JSON library reads back the value that it wrote.
    pub load-save :
        (name path : Bytes) (files : Files)
        → resolve_tailcat_key_path platform name ≡ ok path
        → write path (json.dump (save_json crypto key))
          ≡ (ok tt, some (json.dump (save_json crypto key)))
        → load_saved_tailcat_key crypto platform json write make_private name
            ((save_tailcat_key crypto platform json write make_private name key files).1)
          ≡ ok key
    unfolding load_saved_tailcat_key save_tailcat_key
    load-save name path files resolved w = rw resolved (at_path path files w)
