-- ===== src/Tests/Cli.antt =====
-- The options of `serve`, on concrete arguments.
use tailcat_in_c.Common.{◌≡◌, refl, true, false, List, [], ◌∷◌, none, Bytes, codes, ok}
use tailcat_in_c.Cli.{digits, stoul, parse_port, take_option, parse_arguments, parse_command_line}
use tailcat_in_c.SshKeys.{trim_front}
use tailcat_in_c.Cli.Serve.{
  ServeOptions, set_option, set_value, options_loop, has_port, check_options, serve_options,
}
use tailcat_in_c.Cli.Serve.Accepted.{IsServe, serve_options-IsServe}

abbrev arguments : List Bytes
arguments = codes "ssh" ∷ codes "--ssh-authorized-keys" ∷ codes "gh:me" ∷ codes "8080" ∷ []

abbrev options : ServeOptions
options = record {
  psk_override = none;
  allow_keys = none;
  ssh_authorized_key_sources = codes "gh:me";
  ssh_service = true;
  no_auth_ssh_service = false;
  ports = 8080 ∷ [];
}

arguments_serve : serve_options arguments ≡ ok options
unfolding serve_options options_loop set_option set_value check_options has_port parse_port stoul
    digits trim_front
arguments_serve = refl

serve_options-IsServe_example : IsServe arguments options
serve_options-IsServe_example = serve_options-IsServe arguments options arguments_serve

-- A key and a command, and what follows the command is left to it.
command_line :
    parse_command_line (codes "-v" ∷ codes "--key=a" ∷ codes "serve" ∷ codes "-h" ∷ [])
    ≡ ok (record {
      show_help = false;
      show_version = false;
      verbose = true;
      key_path = codes "a";
      command = codes "serve";
      args = codes "-h" ∷ [];
    })
unfolding parse_command_line parse_arguments take_option
command_line = refl

-- The number wraps around before the test of the port.
negative_port : parse_port (codes "-18446744073709551615") ≡ ok 1
unfolding parse_port stoul digits trim_front
negative_port = refl
