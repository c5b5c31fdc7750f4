-- ===== src/Tests/Stored.antt =====
-- A key that is saved and loaded, a DERP map, and the pipes of a connection.
use tailcat_in_c.Common.{
  ℕ, zero, suc, ◌<◌, ◌≡◌, refl, true, false, List, [], ◌∷◌, ◌++◌, Option, none, some, Bytes,
  IsBytes, codes, replicate, arith, Result, ok, ltb, ◌||◌, ◌-◌, if◌then◌else◌,
}
use tailcat_in_c.Protocol.Types.{DerpNode, DerpRegion}
use tailcat_in_c.Protocol.Cbor.Int64.{ℤ, pos}
use tailcat_in_c.Json.{
  Json, text, boolean, array, object, no_items, item, no_fields, field, find_field,
}
use tailcat_in_c.SavedKey.File.{
  SavedTailcatKey, Platform, Crypto, JsonText, user_config_root, explicit_path, tailcat_keys_dir,
  resolve_tailcat_key_path, save_json, save_tailcat_key, load_saved_tailcat_key,
}
use tailcat_in_c.SavedKey.File.Stored.{IsSaved, load-save}
use tailcat_in_c.DerpMap.{
  integer_or, string_or, bool_or, parse_nodes, parse_region, sort_regions, regions_loop,
  fetch_derp_map,
}
use tailcat_in_c.DerpMap.Usable.{AreUsable}
use tailcat_in_c.DerpMap.Selection.{Selection, fetched-Selection}
use tailcat_in_c.Lwip.{accepted_stream}
use tailcat_in_c.Relay.{new_connection, ReaderRound, returned, reader_round, served}
use tailcat_in_c.Relay.Delivery.{starts, reads, opened}
use tailcat_in_c.Relay.Pipe.{PipeSteps, to_tunnel_pipe, to_host_pipe}
use tailcat_in_c.Relay.Pipe.Refinement.{Step-PipeSteps}
use tailcat_in_c.Tests.Relay.{two_at_a_time, willing}

same_bytes-IsBytes : (n b : ℕ) → b < 256 → IsBytes (replicate n b)
same_bytes-IsBytes zero b h = tt
same_bytes-IsBytes (suc n) b h = (h, same_bytes-IsBytes n b h)

-- The public key of every private key is 7s, and the disco key 9s.
abbrev toy_crypto : Crypto
toy_crypto = record {
  node_public_from_private = λ key. replicate 32 7;
  disco_public = λ key. replicate 32 9;
}

abbrev saved : SavedTailcatKey
saved = record {
  private_key = replicate 32 1;
  public_key = replicate 32 7;
  preshared_key = some (replicate 32 200);
  region_id = pos 4;
}

saved-IsSaved : IsSaved toy_crypto saved
saved-IsSaved = record {
  private_key = (same_bytes-IsBytes 32 1 (omega arith), refl);
  public_key = (same_bytes-IsBytes 32 7 (omega arith), refl);
  disco = (same_bytes-IsBytes 32 9 (omega arith), refl);
  preshared_key = (same_bytes-IsBytes 32 200 (omega arith), refl);
  public_of = refl;
}

abbrev linux : Platform
linux = record { xdg_config_home = []; home = codes "/home/me"; join_path = λ a b. a ++ (b'/' ∷ b) }

-- A JSON library for this one value.
abbrev one_value : JsonText
one_value = record { dump = λ value. []; read = λ content. ok (save_json toy_crypto saved) }

path_run :
    resolve_tailcat_key_path linux (codes "home")
    ≡ ok (codes "/home/me/.config/tailcat/keys/home.private.json")
unfolding resolve_tailcat_key_path explicit_path tailcat_keys_dir user_config_root
path_run = refl

abbrev writes : Bytes → Bytes → Result (Unit {0}) × Option Bytes
writes path content = (ok tt, some content)

abbrev quiet : Bytes → Result (Unit {0})
quiet path = ok tt

load-save_example :
    load_saved_tailcat_key toy_crypto linux one_value writes quiet
      (codes "home")
      ((save_tailcat_key toy_crypto linux one_value writes quiet (codes "home") saved []).1)
    ≡ ok saved
load-save_example =
    load-save toy_crypto saved saved-IsSaved linux one_value writes quiet refl (codes "home")
      (codes "/home/me/.config/tailcat/keys/home.private.json") [] path_run refl

-- Region 2 stands before region 1; region 3 has no node with a host name.
abbrev node_json : Bytes → Json
node_json host = object (field (codes "HostName") (text host) no_fields)

abbrev region_json : Bytes → Json
region_json host = object (field (codes "Nodes") (array (item (node_json host) no_items)) no_fields)

abbrev map_json : Json
map_json = object (
    field (codes "Regions")
      (object (
        field (codes "2") (region_json (codes "two.example")) (
          field (codes "1") (region_json (codes "one.example"))
            (field (codes "3") (region_json []) (field (codes "x") (boolean true) no_fields)))))
      no_fields)

abbrev one_digit : Bytes → Option ℤ
one_digit [] = none
one_digit (c ∷ key) = if ltb c b'0' || ltb b'9' c then none else some (pos (c - b'0'))

abbrev parse_map : Bytes → Result Json
parse_map body = ok map_json

abbrev node_at : Bytes → ℤ → DerpNode
node_at host region_id = record {
  name = [];
  region_id = region_id;
  host_name = host;
  cert_name = [];
  ipv4 = [];
  ipv6 = [];
  stun_port = pos 0;
  derp_port = pos 0;
  insecure_for_tests = false;
}

abbrev region_at : Bytes → ℤ → DerpRegion
region_at host region_id = record {
  region_id = region_id;
  region_code = [];
  region_name = [];
  nodes = node_at host region_id ∷ [];
}

abbrev two_regions : List DerpRegion
two_regions = region_at (codes "one.example") (pos 1) ∷ region_at (codes "two.example") (pos 2) ∷ []

fetch_run : fetch_derp_map one_digit parse_map (ok []) ≡ ok two_regions
unfolding fetch_derp_map regions_loop sort_regions parse_region parse_nodes integer_or string_or
    bool_or find_field
fetch_run = refl

fetched-Selection_example : AreUsable two_regions × Selection two_regions
fetched-Selection_example = fetched-Selection one_digit parse_map (ok []) two_regions fetch_run

abbrev hello : ReaderRound
hello = returned (codes "hello")

hello_goes_on : (reader_round hello (new_connection accepted_stream)).finished ≡ false
unfolding reader_round
hello_goes_on = refl

Step-PipeSteps_example :
    PipeSteps
      (to_tunnel_pipe (new_connection accepted_stream))
      (to_tunnel_pipe (reader_round hello (new_connection accepted_stream)))
    × PipeSteps
        (to_host_pipe (new_connection accepted_stream))
        (to_host_pipe (reader_round hello (new_connection accepted_stream)))
Step-PipeSteps_example =
    Step-PipeSteps two_at_a_time willing served (new_connection accepted_stream)
      (reader_round hello (new_connection accepted_stream)) (starts (opened true)) (reads hello)
      refl hello_goes_on
