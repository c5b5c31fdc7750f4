-- ===== src/Cli/Serve.antt =====
-- The options of `serve` in src/cli.cpp: run_serve up to the start of the server, with parse_allow_list.
pub mod Accepted
use tailcat_in_c.Common.{
  ℕ, ◌==◌, Bool, true, false, ◌&&◌, ◌||◌, not, List, [], ◌∷◌, ◌++◌, Option, none, some, Bytes,
  codes, bytes_eq, starts_with, empty, split_on, get_or, drop, if◌then◌else◌, Result, Error, ok,
  err, invalid_argument, ◌>>=◌, ◌>>◌, throw_if,
}
use tailcat_in_c.Protocol.Types.{Key32}
use tailcat_in_c.SavedKey.{parse_key}
use tailcat_in_c.Cli.{parse_port}

abbrev pub parse_keys : List Bytes → Result (List Key32)
parse_keys [] = ok []
parse_keys (part ∷ parts) =
    throw_if (empty part) (invalid_argument "--allow contains an empty key")
    >> (parse_key part (codes "nodekey:")
        >>= (λ key. parse_keys parts >>= (λ keys. ok (key ∷ keys))))

unfoldable pub parse_allow_list : Bytes → Result (List Key32)
parse_allow_list spec =
    throw_if (empty spec) (invalid_argument "--allow requires a value")
    >> (if bytes_eq spec (codes "none") then ok [] else parse_keys (split_on b',' spec))

-- The variables of run_serve.
pub record ServeOptions : Type 0 where
  pub psk_override : Option Bool
  pub allow_keys : Option (List Key32)
  pub ssh_authorized_key_sources : Bytes
  pub ssh_service : Bool
  pub no_auth_ssh_service : Bool
  pub ports : List ℕ

abbrev pub set_allow : Bytes → ServeOptions → Result ServeOptions
set_allow spec o = parse_allow_list spec >>= (λ keys. ok (record o { allow_keys = some keys }))

-- An option whose value is the next argument.
abbrev pub takes_value : Bytes → Bool
takes_value arg = bytes_eq arg (codes "--allow") || bytes_eq arg (codes "--ssh-authorized-keys")

unfoldable pub set_value : Bytes → Bytes → ServeOptions → Result ServeOptions
set_value arg value o =
    if bytes_eq arg (codes "--allow")
    then set_allow value o
    else ok (record o { ssh_authorized_key_sources = value })

-- Every other argument.
unfoldable pub set_option : Bytes → ServeOptions → Result ServeOptions
set_option arg o =
    if bytes_eq arg (codes "--psk=false")
    then ok (record o { psk_override = some false })
    else if bytes_eq arg (codes "--psk=true")
    then ok (record o { psk_override = some true })
    else if starts_with arg (codes "--allow=")
    then set_allow (drop 8 arg) o
    else if starts_with arg (codes "--ssh-authorized-keys=")
    then (throw_if (empty (drop 22 arg)) (invalid_argument "--ssh-authorized-keys requires a value")
        >> ok (record o { ssh_authorized_key_sources = drop 22 arg }))
    else if bytes_eq arg (codes "ssh")
    then ok (record o { ssh_service = true })
    else if bytes_eq arg (codes "no-auth-ssh")
    then ok (record o { no_auth_ssh_service = true })
    else if not (empty arg) && get_or arg 0 0 == b'-'
    then err (invalid_argument "unsupported serve option")
    else (parse_port arg >>= (λ port. ok (record o { ports = o.ports ++ (port ∷ []) })))

abbrev pub missing_value : Bytes → Error
missing_value arg =
    if bytes_eq arg (codes "--allow")
    then invalid_argument "--allow requires a value"
    else invalid_argument "--ssh-authorized-keys requires a value"

unfoldable pub options_loop : List Bytes → ServeOptions → Result ServeOptions
options_loop [] o = ok o
options_loop (arg ∷ []) o = if takes_value arg then err (missing_value arg) else set_option arg o
options_loop (arg ∷ value ∷ args) o =
    if takes_value arg
    then (set_value arg value o >>= options_loop args)
    else (set_option arg o >>= options_loop (value ∷ args))

unfoldable pub has_port : ℕ → List ℕ → Bool
has_port port [] = false
has_port port (other ∷ ports) =
    let rest = has_port port ports in if other == port then true else rest

abbrev pub no_ports : List ℕ → Bool
no_ports [] = true
no_ports (port ∷ ports) = false

-- The checks behind the loop.
unfoldable pub check_options : ServeOptions → Result ServeOptions
check_options o =
    throw_if (not o.ssh_service && (not o.no_auth_ssh_service && no_ports o.ports))
      (invalid_argument "serve requires ssh, no-auth-ssh, or one or more TCP ports")
    >> (throw_if (o.ssh_service && o.no_auth_ssh_service)
          (invalid_argument "the 'ssh' and 'no-auth-ssh' services cannot be served together")
        >> (throw_if (o.ssh_service && empty o.ssh_authorized_key_sources)
              (invalid_argument "the 'ssh' service requires --ssh-authorized-keys")
            >> (throw_if (o.no_auth_ssh_service && not (empty o.ssh_authorized_key_sources)) (
                  invalid_argument
                    "--ssh-authorized-keys cannot be used with the 'no-auth-ssh' service; use 'ssh' instead")
                >> (throw_if (not o.ssh_service && not (empty o.ssh_authorized_key_sources))
                      (invalid_argument "--ssh-authorized-keys requires the 'ssh' service")
                    >> (throw_if ((o.ssh_service || o.no_auth_ssh_service) && has_port 22 o.ports) (
                          invalid_argument
                            "cannot serve embedded SSH and forward TCP port 22 at the same time")
                        >> ok o)))))

unfoldable pub serve_options : List Bytes → Result ServeOptions
serve_options args =
    options_loop args (record {
      psk_override = none;
      allow_keys = none;
      ssh_authorized_key_sources = [];
      ssh_service = false;
      no_auth_ssh_service = false;
      ports = [];
    })
    >>= check_options

abbrev pub among : List Key32 → Key32 → Bool
among [] peer = false
among (key ∷ keys) peer = let rest = among keys peer in if bytes_eq key peer then true else rest

-- What the data plane is given as `allow`.
unfoldable pub allow_of : ServeOptions → Option (Key32 → Bool)
allow_of o = allowed o.allow_keys
  where
    allowed : Option (List Key32) → Option (Key32 → Bool)
    allowed none = none
    allowed (some keys) = some (among keys)
