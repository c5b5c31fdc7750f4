-- ===== src/Tests/Names.antt =====
-- A destination of src/address_resolver.cpp, and the sources of src/ssh_authorized_keys.cpp.
use tailcat_in_c.Common.{
  ◌≡◌, refl, true, false, List, [], ◌∷◌, ◌++◌, Bytes, codes, replicate, none, some, split_on,
  if◌then◌else◌, bytes_eq, empty, contains, Result, ok, err, runtime_error, invalid_argument, Each,
  Ensures,
}
use tailcat_in_c.Protocol.Base64.{b64_value, join_sextets, octet, decode_groups, base64url_decode}
use tailcat_in_c.Protocol.Cbor.Reader
use tailcat_in_c.Protocol.Types.{all_zero}
use tailcat_in_c.Protocol.Address.Parse.{
  key32, entry, info_field, rethrow, default_region_id, check_info, read_info, parse_tailcat_addr,
}
use tailcat_in_c.Resolver.{
  is_valid, label_is_tailcat_address, labels_of, has_address, classify_tailcat_address_argument,
  txt_prefix, select, tailcat_address_from_txt, resolve_tailcat_address_argument, query_txt_records,
  read16, skip_name, skip, questions_loop, txt_loop, record_value, answers_loop,
}
use tailcat_in_c.Resolver.Privacy.{
  Classified, IsName, AllHold, OneHolds, classify-Classified, resolve-names, from_txt-holds,
}
use tailcat_in_c.SshKeys.{
  trim_front, trim_back, trim, are_name_bytes, github_name, split_sources, has, append_unique, word,
  behind_word, Libssh, Sources, line_key, lines_loop, is_none, parse_ssh_authorized_keys_text,
  looks_like_literal_key, load_loop, load_ssh_authorized_key_blobs,
}
use tailcat_in_c.SshKeys.Names.{IsUserName, github_name-IsUserName, split_sources-items}
use tailcat_in_c.SshKeys.Keys.{AreKeys, load-AreKeys}
use tailcat_in_c.Resolver.Response.{AreShort, query_txt_records-Ends}

abbrev address : Bytes
address = codes "tcomFwWCAAAQIAAAAAAAAAAAAAAAAAAAAAAAAAAAAAAAAAAAAAH2FpCg"

direct : is_valid address ≡ true
unfolding is_valid parse_tailcat_addr base64url_decode decode_groups octet join_sextets b64_value
    read_info info_field check_info key32 entry default_region_id rethrow all_zero Reader.map_size
    Reader.expect_major Reader.head Reader.read_argument Reader.argument_size Reader.next_byte
    Reader.require Reader.require_len Reader.take_bytes Reader.for_count Reader.text Reader.bytes
    Reader.integer Reader.read_uint
direct = refl

abbrev cat : Bytes
cat = codes "cat.example.com"

classify_run :
    classify_tailcat_address_argument cat
    ≡ ok (record { address = []; dns_name = cat; via_dns = true })
unfolding classify_tailcat_address_argument is_valid parse_tailcat_addr labels_of split_on
    has_address label_is_tailcat_address
classify_run = refl

-- A pasted address is not looked up.
classify_refuses :
    classify_tailcat_address_argument (address ++ codes ".example.com")
    ≡ err (
        invalid_argument
          "refusing DNS lookup: destination contains a Tailcat address as a DNS label")
unfolding classify_tailcat_address_argument is_valid parse_tailcat_addr labels_of split_on
    has_address label_is_tailcat_address base64url_decode decode_groups octet join_sextets b64_value
    read_info info_field check_info key32 entry default_region_id rethrow all_zero Reader.map_size
    Reader.expect_major Reader.head Reader.read_argument Reader.argument_size Reader.next_byte
    Reader.require Reader.require_len Reader.take_bytes Reader.for_count Reader.text Reader.bytes
    Reader.integer Reader.read_uint
classify_refuses = refl

classify-Classified_example :
    Classified cat (record { address = []; dns_name = cat; via_dns = true })
classify-Classified_example = classify-Classified cat _ classify_run

abbrev silent : Bytes → Result Bytes
silent name = err (runtime_error "DNS TXT lookup failed")

abbrev chatty : Bytes → Result Bytes
chatty name = if is_valid name then ok name else err (runtime_error "DNS TXT lookup failed")

resolve-names_example :
    resolve_tailcat_address_argument chatty cat ≡ resolve_tailcat_address_argument silent cat
resolve-names_example = resolve-names chatty silent cat (λ name (h : IsName name). rw h.whole refl)

abbrev entries : List Bytes
entries = codes "hello=world" ∷ (txt_prefix ++ address) ∷ []

selected : tailcat_address_from_txt entries ≡ ok address
unfolding tailcat_address_from_txt select
selected = rw direct refl

from_txt-holds_example :
    AllHold address entries × OneHolds address entries × (is_valid address ≡ true)
from_txt-holds_example = from_txt-holds entries address selected

-- One question, and one answer that holds `ab` and `c`; the name of the answer is a pointer.
abbrev response : Bytes
response =
    replicate 4 0
    ++ (0 ∷ 1 ∷ 0 ∷ 1 ∷ 0 ∷ 0 ∷ 0 ∷ 0 ∷ [])
    ++ (1 ∷ b'x' ∷ 0 ∷ 0 ∷ 16 ∷ 0 ∷ 1 ∷ [])
    ++ (0xc0 ∷ 12 ∷ 0 ∷ 16 ∷ 0 ∷ 1 ∷ 0 ∷ 0 ∷ 0 ∷ 60 ∷ 0 ∷ 5 ∷ 2 ∷ b'a' ∷ b'b' ∷ 1 ∷ b'c' ∷ [])

query_run : query_txt_records response ≡ ok (codes "abc" ∷ [])
unfolding query_txt_records read16 skip_name skip questions_loop txt_loop record_value answers_loop
query_run = refl

query_txt_records-Ends_example : Ensures (AreShort response) (query_txt_records response)
query_txt_records-Ends_example = query_txt_records-Ends response

-- A libssh with one type of keys, and a GitHub with one user.
abbrev toy_libssh : Libssh Bytes
toy_libssh = record {
  is_known_type = bytes_eq (codes "ssh-ed25519");
  import_pubkey = λ encoded type. some encoded;
  export_pubkey = some;
}

abbrev toy_sources : Sources
toy_sources = record {
  read_file = λ path. err (runtime_error "failed to open SSH public key source");
  fetch_text = λ url. ok (codes "ssh-ed25519 AAAA me\n# mine\nssh-ed25519 BBBB");
  home = none;
  join_path = λ home rest. home ++ (b'/' ∷ rest);
}

abbrev both : Bytes
both = codes "ssh-ed25519 BBBB, me@github"

load_run :
    load_ssh_authorized_key_blobs toy_libssh toy_sources both
    ≡ ok (codes "BBBB" ∷ codes "AAAA" ∷ [])
unfolding load_ssh_authorized_key_blobs load_loop split_sources split_on trim trim_front trim_back
    github_name are_name_bytes looks_like_literal_key word behind_word has append_unique line_key
    lines_loop parse_ssh_authorized_keys_text
load_run = refl

load-AreKeys_example :
    AreKeys toy_libssh (codes "BBBB" ∷ codes "AAAA" ∷ [])
    × (is_none toy_libssh (codes "BBBB" ∷ codes "AAAA" ∷ []) ≡ false)
load-AreKeys_example = load-AreKeys toy_libssh toy_sources both _ load_run

name_run : github_name (codes "me@github") ≡ ok (some (codes "me"))
unfolding github_name are_name_bytes
name_run = refl

github_name-IsUserName_example :
    (codes "me@github" ≡ codes "me" ++ codes "@github") × IsUserName (codes "me")
github_name-IsUserName_example = github_name-IsUserName (codes "me@github") (codes "me") name_run

items_run : split_sources both ≡ ok (codes "ssh-ed25519 BBBB" ∷ codes "me@github" ∷ [])
unfolding split_sources split_on trim trim_front trim_back
items_run = refl

split_sources-items_example :
    Each
      (λ item. (empty item ≡ false) × (contains b',' item ≡ false))
      (codes "ssh-ed25519 BBBB" ∷ codes "me@github" ∷ [])
split_sources-items_example = split_sources-items both _ items_run
