-- ===== src/Cli.antt =====
-- The command line of src/cli.cpp: parse_command_line, and port numbers. std::stoul is written out: it skips spaces, takes a sign, and
-- computes a negative number modulo 2^64.
pub mod Serve
use tailcat_in_c.Common.{
  ℕ, ◌+◌, ◌-◌, ◌*◌, ◌%◌, ◌^◌, ltb, leb, ◌==◌, Bool, true, false, ◌&&◌, ◌||◌, not, List, [], ◌∷◌,
  ◌++◌, Bytes, codes, bytes_eq, starts_with, empty, get_or, drop, if◌then◌else◌, Result, ok, err,
  invalid_argument, runtime_error, ◌>>=◌, ◌>>◌, throw_if,
}
use tailcat_in_c.SshKeys.{trim_front}

-- CommandLine of include/tailcat/cli.hpp.
pub record CommandLine : Type 0 where
  pub show_help : Bool
  pub show_version : Bool
  pub verbose : Bool
  pub key_path : Bytes
  pub command : Bytes
  pub args : List Bytes

abbrev pub is_help : Bytes → Bool
is_help arg = bytes_eq arg (codes "-h") || bytes_eq arg (codes "--help")

abbrev pub is_version : Bytes → Bool
is_version arg =
    bytes_eq arg (codes "-V")
    || (bytes_eq arg (codes "--version") || bytes_eq arg (codes "version"))

abbrev pub push_arg : Bytes → CommandLine → CommandLine
push_arg arg out = record out { args = out.args ++ (arg ∷ []) }

abbrev pub take_key_path : Bytes → CommandLine → Result CommandLine
take_key_path path out =
    throw_if (empty path) (invalid_argument "--key requires a path, name, or 'new'")
    >> ok (record out { key_path = path })

-- An argument in front of the command, but for `--key`.
unfoldable pub take_option : Bytes → CommandLine → Result CommandLine
take_option arg out =
    if is_help arg
    then ok (record out { show_help = true })
    else if is_version arg
    then ok (record out { show_version = true })
    else if bytes_eq arg (codes "-v") || bytes_eq arg (codes "--verbose")
    then ok (record out { verbose = true })
    else if starts_with arg (codes "--key=")
    then take_key_path (drop 6 arg) out
    else if not (empty arg) && not (get_or arg 0 0 == b'-')
    then ok (record out { command = arg })
    else ok (push_arg arg out)

-- The loop over argv.
unfoldable pub parse_arguments : List Bytes → CommandLine → Result CommandLine
parse_arguments [] out = ok out
parse_arguments (arg ∷ []) out =
    if not (empty out.command)
    then ok (push_arg arg out)
    else if bytes_eq arg (codes "--key")
    then err (invalid_argument "--key requires a path, name, or 'new'")
    else take_option arg out
parse_arguments (arg ∷ value ∷ argv) out =
    if not (empty out.command)
    then parse_arguments (value ∷ argv) (push_arg arg out)
    else if bytes_eq arg (codes "--key")
    then parse_arguments argv (record out { key_path = value })
    else (take_option arg out >>= parse_arguments (value ∷ argv))

unfoldable pub parse_command_line : List Bytes → Result CommandLine
parse_command_line argv = parse_arguments argv (record {
  show_help = false;
  show_version = false;
  verbose = false;
  key_path = [];
  command = [];
  args = [];
})

abbrev pub is_digit : ℕ → Bool
is_digit c = leb b'0' c && leb c b'9'

-- The digits in front, as a number, and what follows.
unfoldable pub digits : ℕ → Bytes → ℕ × Bytes
digits value [] = (value, [])
digits value (c ∷ text) =
    let rest = digits (value * 10 + (c - b'0')) text in
    if is_digit c then rest else (value, c ∷ text)

abbrev pub number : Bool → ℕ × Bytes → Result (ℕ × Bytes)
number negative (value, rest) =
    if not (ltb value (2 ^ 64))
    then err (runtime_error "stoul: out of range")
    else ok ((if negative then (2 ^ 64 - value) % 2 ^ 64 else value), rest)

abbrev pub unsigned : Bool → Bytes → Result (ℕ × Bytes)
unsigned negative text =
    if is_digit (get_or text 0 0)
    then number negative (digits 0 text)
    else err (invalid_argument "stoul: no conversion")

abbrev pub signed : Bytes → Result (ℕ × Bytes)
signed [] = err (invalid_argument "stoul: no conversion")
signed (c ∷ text) =
    if c == b'-'
    then unsigned true text
    else if c == b'+'
    then unsigned false text
    else unsigned false (c ∷ text)

-- The value, and what is not consumed.
unfoldable pub stoul : Bytes → Result (ℕ × Bytes)
stoul text = signed (trim_front text)

abbrev pub checked_port : ℕ × Bytes → Result ℕ
checked_port (value, rest) =
    throw_if (not (empty rest) || (value == 0 || ltb 65535 value))
      (invalid_argument "invalid TCP port")
    >> ok value

unfoldable pub parse_port : Bytes → Result ℕ
parse_port text =
    throw_if (empty text) (invalid_argument "empty port number") >> (stoul text >>= checked_port)
