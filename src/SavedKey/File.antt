-- ===== src/SavedKey/File.antt =====
-- The key files of src/saved_key.cpp: where they stand, and what is written to and read from them. Files are a
-- map from paths to texts; the text of a JSON value, the joining of paths, the environment, libsodium
-- and the failures of the file system are parameters.
pub mod Stored
use tailcat_in_c.Common.{
  ℕ, Bool, true, false, ◌||◌, not, List, [], ◌∷◌, ◌++◌, Option, none, some, Bytes, codes, bytes_eq,
  contains, empty, if◌then◌else◌, Result, ok, err, runtime_error, invalid_argument, ◌>>=◌, ◌>>◌,
  throw_if, ByteMap, find, Run, done, throw, step, and_then,
}
use tailcat_in_c.Protocol.Types.{Key32}
use tailcat_in_c.Protocol.Cbor.Int64.{ℤ, pos, nonzero}
use tailcat_in_c.Json.{Json, text, integer, real, object, Fields, no_fields, field, find_field}
use tailcat_in_c.SavedKey.{hex_key, parse_key}

pub record SavedTailcatKey : Type 0 where
  pub private_key : Key32
  pub public_key : Key32
  pub preshared_key : Option Key32
  pub region_id : ℤ

-- The environment, and fs::path.
pub record Platform : Type 0 where
  pub xdg_config_home : Bytes
  pub home : Bytes
  pub join_path : Bytes → Bytes → Bytes

-- libsodium: node_public_from_private, and the public key of derive_disco_key.
pub record Crypto : Type 0 where
  pub node_public_from_private : Key32 → Key32
  pub disco_public : Key32 → Key32

-- The JSON library: dump with a newline behind it, and the operator >>.
pub record JsonText : Type 0 where
  pub dump : Json → Bytes
  pub read : Bytes → Result Json

abbrev pub Files : Type 0
Files = ByteMap Bytes

module _ (platform : Platform) where
  unfoldable pub user_config_root : Result Bytes
  user_config_root =
      if not (empty platform.xdg_config_home)
      then ok platform.xdg_config_home
      else if not (empty platform.home)
      then ok (platform.join_path platform.home (codes ".config"))
      else err (runtime_error "cannot determine the user configuration directory")

  unfoldable pub explicit_path : Bytes → Bool
  explicit_path value = contains b'/' value || contains b'\\' value

  unfoldable pub tailcat_keys_dir : Result Bytes
  tailcat_keys_dir = user_config_root >>= (λ root.
      ok (platform.join_path (platform.join_path root (codes "tailcat")) (codes "keys")))

  unfoldable pub resolve_tailcat_key_path : Bytes → Result Bytes
  resolve_tailcat_key_path name_or_path =
      throw_if (empty name_or_path) (invalid_argument "Tailcat key name is empty")
      >> (if explicit_path name_or_path
          then ok name_or_path
          else (throw_if (bytes_eq name_or_path (codes ".") || bytes_eq name_or_path (codes ".."))
                (invalid_argument "invalid Tailcat key name")
              >> (tailcat_keys_dir >>= (λ dir.
                  ok (platform.join_path dir (name_or_path ++ codes ".private.json"))))))

-- `value.at(key)` throws where the value is no object or has no such key.
abbrev pub found : Option Json → Result Json
found none = err (runtime_error "json: key not found")
found (some value) = ok value

abbrev pub at : Bytes → Json → Result Json
at key (object fields) = found (find_field key fields)
at key _ = err (runtime_error "json: cannot use at()")

abbrev pub is_some : {A : Type 0} → Option A → Bool
is_some none = false
is_some (some a) = true

abbrev pub has_key : Bytes → Json → Bool
has_key key (object fields) = is_some (find_field key fields)
has_key key _ = false

-- `get<std::string>()` and `get<std::int64_t>()`.
abbrev pub get_string : Json → Result Bytes
get_string (text value) = ok value
get_string _ = err (runtime_error "json: type must be string")

abbrev pub get_int64 : Json → Result ℤ
get_int64 (integer value) = ok value
get_int64 (real value) = ok value
get_int64 _ = err (runtime_error "json: type must be number")

-- The key under a name, and its text with a prefix.
abbrev pub key_at : Bytes → Bytes → Json → Result Key32
key_at key prefix value =
    at key value >>= (λ v. get_string v >>= (λ digits. parse_key digits prefix))

module _ (crypto : Crypto) where
  abbrev pub check_public : Json → Key32 → Result (Unit {0})
  check_public public_value public_key =
      if has_key (codes "ServerPublic") public_value
      then key_at (codes "ServerPublic") (codes "nodekey:") public_value >>= (λ key.
        throw_if (not (bytes_eq key public_key))
          (runtime_error "saved Tailcat public key does not match private key"))
      else ok tt

  abbrev pub check_disco : Json → Key32 → Result (Unit {0})
  check_disco public_value private_key =
      if has_key (codes "ServerDiscoPublic") public_value
      then key_at (codes "ServerDiscoPublic") (codes "discokey:") public_value >>= (λ key.
        throw_if (not (bytes_eq key (crypto.disco_public private_key)))
          (runtime_error "saved Tailcat disco key does not match private key"))
      else ok tt

  abbrev pub load_psk : Json → Result (Option Key32)
  load_psk public_value =
      if has_key (codes "PresharedKey") public_value
      then key_at (codes "PresharedKey") (codes "psk:") public_value >>= (λ key. ok (some key))
      else ok none

  abbrev pub load_region : Json → Result ℤ
  load_region public_value =
      if has_key (codes "RegionID") public_value
      then at (codes "RegionID") public_value >>= get_int64
      else ok (pos 0)

  -- The value of a file.
  unfoldable pub load_json : Json → Result SavedTailcatKey
  load_json value = key_at (codes "Private") (codes "privkey:") value >>= (λ private_key.
      at (codes "Public") value >>= (λ public_value.
        check_public public_value (crypto.node_public_from_private private_key)
        >> (check_disco public_value private_key
            >> (load_psk public_value >>= (λ preshared_key.
                load_region public_value >>= (λ region_id. ok (record {
                  private_key = private_key;
                  public_key = crypto.node_public_from_private private_key;
                  preshared_key = preshared_key;
                  region_id = region_id;
                })))))))

  abbrev pub psk_field : Option Key32 → Fields → Fields
  psk_field none fields = fields
  psk_field (some key) fields =
      field (codes "PresharedKey") (text (hex_key (codes "psk:") key)) fields

  abbrev pub region_field : ℤ → Fields
  region_field region_id =
      if nonzero region_id
      then field (codes "RegionID") (integer region_id) no_fields
      else no_fields

  abbrev pub public_json : SavedTailcatKey → Json
  public_json key = object (
      field (codes "ServerPublic") (text (hex_key (codes "nodekey:") key.public_key)) (
        field (codes "ServerDiscoPublic")
          (text (hex_key (codes "discokey:") (crypto.disco_public key.private_key)))
          (psk_field key.preshared_key (region_field key.region_id))))

  unfoldable pub save_json : SavedTailcatKey → Json
  save_json key = object (
      field (codes "Private") (text (hex_key (codes "privkey:") key.private_key))
        (field (codes "Public") (public_json key) no_fields))

  -- `write` is what creating the directory, opening the file and writing it ends in, and, where the file
  -- was opened, what it holds then; `make_private` is the chmod.
  module _ (platform : Platform) (json : JsonText)
      (write : Bytes → Bytes → Result (Unit {0}) × Option Bytes)
      (make_private : Bytes → Result (Unit {0})) where
    abbrev pub left_at : Bytes → Option Bytes → Files → Files
    left_at path none files = files
    left_at path (some content) files = (path, content) ∷ files

    abbrev pub written :
        Bytes → Files → Result (Unit {0}) × Option Bytes → Result (Unit {0}) × Files
    written path files (ok _, left) = (make_private path, left_at path left files)
    written path files (err e, left) = (err e, left_at path left files)

    abbrev pub save_at : SavedTailcatKey → Files → Result Bytes → Result (Unit {0}) × Files
    save_at key files (ok path) = written path files (write path (json.dump (save_json key)))
    save_at key files (err e) = (err e, files)

    unfoldable pub save_tailcat_key : Bytes → SavedTailcatKey → Run Files (Unit {0})
    save_tailcat_key path_or_name key files =
        save_at key files (resolve_tailcat_key_path platform path_or_name)

    abbrev pub opened : Option Bytes → Result Bytes
    opened none = err (runtime_error "failed to open Tailcat key file")
    opened (some content) = ok content

    unfoldable pub load_saved_tailcat_key : Bytes → Files → Result SavedTailcatKey
    load_saved_tailcat_key path_or_name files =
        resolve_tailcat_key_path platform path_or_name
        >>= (λ path. opened (find path files) >>= (λ content. json.read content >>= load_json))
