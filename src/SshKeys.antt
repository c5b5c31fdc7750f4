-- ===== src/SshKeys.antt =====
-- src/ssh_authorized_keys.cpp: where the public keys of an SSH server come from, and their texts. libssh,
-- files and GitHub are parameters.
pub mod Names
pub mod Keys
use tailcat_in_c.Common.{
  ℕ, ◌+◌, ◌-◌, ltb, leb, ◌==◌, Bool, true, false, ◌&&◌, ◌||◌, not, List, [], ◌∷◌, ◌++◌, Option,
  none, some, Bytes, codes, bytes_eq, contains, empty, split_on, length, get_or, take, drop,
  if◌then◌else◌, Result, ok, err, runtime_error, invalid_argument, ◌>>=◌, ◌>>◌, throw_if,
}

-- std::isspace and std::isalnum of the C locale.
abbrev pub is_space : ℕ → Bool
is_space c = c == 32 || (leb 9 c && leb c 13)

abbrev pub is_alnum : ℕ → Bool
is_alnum c =
    (leb b'0' c && leb c b'9') || ((leb b'A' c && leb c b'Z') || (leb b'a' c && leb c b'z'))

unfoldable pub trim_front : Bytes → Bytes
trim_front [] = []
trim_front (c ∷ value) = let rest = trim_front value in if is_space c then rest else c ∷ value

unfoldable pub trim_back : Bytes → Bytes
trim_back [] = []
trim_back (c ∷ value) =
    let rest = trim_back value in if empty rest && is_space c then [] else c ∷ rest

unfoldable pub trim : Bytes → Bytes
trim value = trim_back (trim_front value)

abbrev pub github_suffix : Bytes
github_suffix = codes "@github"

abbrev pub ends_with : Bytes → Bytes → Bool
ends_with s suffix =
    leb (length suffix) (length s) && bytes_eq (drop (length s - length suffix) s) suffix

unfoldable pub are_name_bytes : Bytes → Bool
are_name_bytes [] = true
are_name_bytes (c ∷ name) =
    let rest = are_name_bytes name in if is_alnum c || c == b'-' then rest else false

-- The name in front of the suffix, if there is one.
unfoldable pub github_name : Bytes → Result (Option Bytes)
github_name source =
    if not (ends_with source github_suffix)
    then ok none
    else let name = take (length source - length github_suffix) source in
      throw_if
        (empty name
          || (ltb 39 (length name)
              || (get_or name 0 0 == b'-' || get_or name (length name - 1) 0 == b'-')))
        (invalid_argument "invalid GitHub username in SSH public key source")
      >> (throw_if (not (are_name_bytes name))
            (invalid_argument "invalid GitHub username in SSH public key source")
          >> ok (some name))

abbrev pub trim_all : List Bytes → Result (List Bytes)
trim_all [] = ok []
trim_all (part ∷ parts) =
    throw_if (empty (trim part)) (invalid_argument "empty SSH public key source")
    >> (trim_all parts >>= (λ items. ok (trim part ∷ items)))

unfoldable pub split_sources : Bytes → Result (List Bytes)
split_sources sources = trim_all (split_on b',' sources)

unfoldable pub has : Bytes → List Bytes → Bool
has key [] = false
has key (other ∷ keys) = let rest = has key keys in if bytes_eq other key then true else rest

abbrev pub add_unique : List Bytes → Bytes → List Bytes
add_unique target key = if has key target then target else target ++ (key ∷ [])

unfoldable pub append_unique : List Bytes → List Bytes → List Bytes
append_unique target [] = target
append_unique target (key ∷ keys) = append_unique (add_unique target key) keys

-- `input >> word`: the spaces in front are skipped, and the word ends before the next.
unfoldable pub word : Bytes → Bytes
word [] = []
word (c ∷ text) = let rest = word text in if is_space c then [] else c ∷ rest

unfoldable pub behind_word : Bytes → Bytes
behind_word [] = []
behind_word (c ∷ text) = let rest = behind_word text in if is_space c then c ∷ text else rest

abbrev pub first_word : Bytes → Bytes
first_word text = word (trim_front text)

abbrev pub second_word : Bytes → Bytes
second_word text = word (trim_front (behind_word (trim_front text)))

abbrev pub without_return : Bytes → Bytes
without_return line =
    if not (empty line) && (get_or line (length line - 1) 0 == 13)
    then take (length line - 1) line
    else line

-- libssh: whether a type is known, and the import and export of a public key.
pub record Libssh (K : Type 0) : Type 0 where
  pub is_known_type : Bytes → Bool
  pub import_pubkey : Bytes → Bytes → Option K
  pub export_pubkey : K → Option Bytes

-- What is read of the outside: a file, a text of GitHub, and the path of a home directory.
pub record Sources : Type 0 where
  pub read_file : Bytes → Result Bytes
  pub fetch_text : Bytes → Result Bytes
  pub home : Option Bytes
  pub join_path : Bytes → Bytes → Bytes

module _ {K : Type 0} (libssh : Libssh K) where
  abbrev pub exported : Option Bytes → Result Bytes
  exported none = err (runtime_error "failed to canonicalize SSH public key")
  exported (some blob) = ok blob

  abbrev pub canonical : Option K → Result Bytes
  canonical none = err (invalid_argument "authorized keys: invalid public key")
  canonical (some key) = exported (libssh.export_pubkey key)

  -- The canonical text of the key of a line.
  unfoldable pub line_key : Bytes → Result Bytes
  line_key cleaned =
      throw_if
        (empty (first_word cleaned)
          || (empty (second_word cleaned) || not (libssh.is_known_type (first_word cleaned))))
        (invalid_argument "authorized keys: options are not supported or key type is invalid")
      >> canonical (libssh.import_pubkey (second_word cleaned) (first_word cleaned))

  -- The loop over the lines. The empty line behind a last newline, which the source does not visit,
  -- adds nothing.
  unfoldable pub lines_loop : List Bytes → List Bytes → Result (List Bytes)
  lines_loop keys [] = ok keys
  lines_loop keys (line ∷ lines) =
      let cleaned = trim (without_return line) in
      if not (empty cleaned) && not (get_or cleaned 0 0 == b'#')
      then line_key cleaned >>= (λ blob. lines_loop (add_unique keys blob) lines)
      else lines_loop keys lines

  abbrev pub is_none : List Bytes → Bool
  is_none [] = true
  is_none (key ∷ keys) = false

  unfoldable pub parse_ssh_authorized_keys_text : Bytes → Result (List Bytes)
  parse_ssh_authorized_keys_text text =
      lines_loop [] (split_on 10 text)
      >>= (λ keys. throw_if (is_none keys) (invalid_argument "no SSH public keys found") >> ok keys)

  unfoldable pub looks_like_literal_key : Bytes → Bool
  looks_like_literal_key source =
      (contains 10 source || contains 13 source)
      || (not (empty (first_word source)) && libssh.is_known_type (first_word source))

  module _ (outside : Sources) where
    abbrev pub in_home : Option Bytes → Bytes → Result Bytes
    in_home none rest = err (runtime_error "cannot expand ~ in SSH public key path")
    in_home (some home) rest =
        if empty home
        then err (runtime_error "cannot expand ~ in SSH public key path")
        else ok (outside.join_path home rest)

    unfoldable pub expand_home : Bytes → Result Bytes
    expand_home source =
        if ltb (length source) 2
          || (not (get_or source 0 0 == b'~')
              || not (get_or source 1 0 == b'/' || get_or source 1 0 == b'\\'))
        then ok source
        else in_home outside.home (drop 2 source)

    abbrev pub source_text : Bytes → Option Bytes → Result Bytes
    source_text source (some username) =
        outside.fetch_text (codes "https://github.com/" ++ (username ++ codes ".keys"))
    source_text source none =
        if looks_like_literal_key source
        then ok source
        else (expand_home source >>= outside.read_file)

    unfoldable pub load_loop : List Bytes → List Bytes → Result (List Bytes)
    load_loop result [] = ok result
    load_loop result (source ∷ sources) = github_name source >>= (λ username.
        source_text source username >>= (λ text.
          parse_ssh_authorized_keys_text text
          >>= (λ keys. load_loop (append_unique result keys) sources)))

    unfoldable pub load_ssh_authorized_key_blobs : Bytes → Result (List Bytes)
    load_ssh_authorized_key_blobs sources =
        throw_if (empty (trim sources)) (invalid_argument "--ssh-authorized-keys requires a value")
        >> (split_sources sources >>= (λ items. load_loop [] items >>= (λ result.
            throw_if (is_none result) (invalid_argument "no SSH public keys found") >> ok result)))
