-- ===== src/Socks/Handshake.antt =====
-- The thread of begin_handshake in src/socks_command.cpp: what it reads and answers, and the port that it
-- puts into the queue. `server_address` and whether the queue is `stopped` come from outside.
pub mod Request
pub mod Outcome
use tailcat_in_c.Common.{
  ℕ, ◌+◌, ◌/◌, ◌%◌, ◌^◌, bit_or, shl, Bool, true, false, ◌&&◌, ◌||◌, not, List, [], ◌∷◌, ◌++◌,
  Option, none, some, Bytes, codes, bytes_eq, contains, get_or, map, ltb, ◌==◌, if◌then◌else◌,
  Error, Result, ok, err, runtime_error, invalid_argument, length_error, out_of_fuel, Run, done,
  throw, and_then,
}
use tailcat_in_c.SavedKey.{tolower}
use tailcat_in_c.Socks.Host.{Host, read_exact, write_all, close}

-- `std::to_string` of a byte.
unfoldable pub decimal : ℕ → Bytes
decimal n =
    if ltb n 10
    then (b'0' + n) ∷ []
    else if ltb n 100
    then (b'0' + n / 10) ∷ (b'0' + n % 10) ∷ []
    else (b'0' + n / 100) ∷ (b'0' + n / 10 % 10) ∷ (b'0' + n % 10) ∷ []

unfoldable pub lower_ascii : Bytes → Bytes
lower_ascii value = map tolower value

unfoldable pub dotted : Bytes → Bytes
dotted address =
    decimal (get_or address 0 0)
    ++ (codes "."
        ++ (decimal (get_or address 1 0)
            ++ (codes "."
                ++ (decimal (get_or address 2 0) ++ (codes "." ++ decimal (get_or address 3 0))))))

-- Two bytes, the high one first, cast to 16 bits.
unfoldable pub port_of : Bytes → ℕ
port_of port_bytes = bit_or (shl 32 (get_or port_bytes 0 0) 8) (get_or port_bytes 1 0) % 2 ^ 16

abbrev pub reply_bytes : ℕ → Bytes
reply_bytes code = 5 ∷ code ∷ 0 ∷ 1 ∷ 0 ∷ 0 ∷ 0 ∷ 0 ∷ 0 ∷ 0 ∷ []

module _ (answers : List Bytes → Result (Unit {0})) (server_address : Bytes) (stopped : Bool) where
  -- `host->close(); return;`
  unfoldable pub give_up : Run Host (Option ℕ)
  give_up = and_then close (λ _. done none)

  unfoldable pub socks_reply : ℕ → Run Host (Unit {0})
  socks_reply code = write_all answers (reply_bytes code)

  unfoldable pub refuse : ℕ → Run Host (Option ℕ)
  refuse code = and_then (socks_reply code) (λ _. give_up)

  -- The port, and what becomes of a request for `target_host`.
  unfoldable pub enqueue : Bytes → ℕ → Run Host (Option ℕ)
  enqueue target_host port =
      if port == 0
      then refuse 1
      else if not (bytes_eq (lower_ascii target_host) (codes "server.tailcat"))
          && not (bytes_eq target_host server_address)
      then refuse 4
      else if stopped
      then give_up
      else done (some port)

  unfoldable pub read_port : Bytes → Run Host (Option ℕ)
  read_port target_host =
      and_then (read_exact 2) (λ port_bytes. enqueue target_host (port_of port_bytes))

  unfoldable pub read_address : ℕ → Run Host (Option ℕ)
  read_address kind =
      if kind == 1
      then and_then (read_exact 4) (λ address. read_port (dotted address))
      else if kind == 3
      then and_then (read_exact 1)
          (λ size. and_then (read_exact (get_or size 0 0)) (λ name. read_port name))
      else if kind == 4
      then and_then (read_exact 16) (λ _. read_port (codes "<ipv6>"))
      else refuse 8

  unfoldable pub read_request : Run Host (Option ℕ)
  read_request = and_then (read_exact 4) (λ header.
      if not (get_or header 0 0 == 5) || not (get_or header 2 0 == 0)
      then throw (runtime_error "invalid SOCKS5 request")
      else if not (get_or header 1 0 == 1)
      then refuse 7
      else read_address (get_or header 3 0))

  unfoldable pub choose_method : Bytes → Run Host (Option ℕ)
  choose_method methods =
      if not (contains 0 methods)
      then and_then (write_all answers (5 ∷ 0xff ∷ [])) (λ _. give_up)
      else and_then (write_all answers (5 ∷ 0 ∷ [])) (λ _. read_request)

  unfoldable pub handshake : Run Host (Option ℕ)
  handshake = and_then (read_exact 2) (λ greeting.
      if not (get_or greeting 0 0 == 5) || get_or greeting 1 0 == 0
      then throw (runtime_error "invalid SOCKS5 greeting")
      else and_then (read_exact (get_or greeting 1 0)) choose_method)

  -- `catch (...) { host->close(); }`
  unfoldable pub or_close : Result (Option ℕ) → Run Host (Option ℕ)
  or_close (ok r) = done r
  or_close (err (runtime_error m)) = give_up
  or_close (err (invalid_argument m)) = give_up
  or_close (err (length_error m)) = give_up
  or_close (err out_of_fuel) = throw out_of_fuel

  unfoldable pub begin_handshake : Run Host (Option ℕ)
  begin_handshake host = let (r, host') = handshake host in or_close r host'
