-- ===== src/Tests/Proxy.antt =====
-- Key texts, and a SOCKS request that arrives in pieces.
use tailcat_in_c.Common.{
  ℕ, zero, suc, ◌≡◌, ◌<◌, refl, false, List, [], ◌∷◌, ◌++◌, none, some, Bytes, IsBytes, codes,
  arith, replicate, Result, ok, After, and_then, done,
}
use tailcat_in_c.Protocol.Types.{Key32}
use tailcat_in_c.SavedKey.{tolower}
use tailcat_in_c.Socks.Host.{Host, unread, read_some, read_loop, read_exact, write_all}
use tailcat_in_c.Socks.Handshake.{
  lower_ascii, port_of, enqueue, read_port, read_address, read_request, choose_method, handshake,
  or_close, begin_handshake,
}
use tailcat_in_c.Socks.Handshake.Outcome.{Ended, begin_handshake-Ended}

IsBytes-same : (n b : ℕ) → b < 256 → IsBytes (replicate n b)
IsBytes-same zero b h = tt
IsBytes-same (suc n) b h = (h, IsBytes-same n b h)

abbrev key_c3 : Key32
key_c3 = replicate 32 0xc3

abbrev no_failure : List Bytes → Result (Unit {0})
no_failure _ = ok tt

-- CONNECT to port 80 of `Server.tailcat`.
abbrev request : Host
request = record {
  pieces =
      (5 ∷ [])
      ∷ (2 ∷ 1 ∷ 0 ∷ 5 ∷ 1 ∷ [])
      ∷ (0 ∷ 3 ∷ 14 ∷ codes "Server.tai")
      ∷ (codes "lcat" ++ (0 ∷ 80 ∷ []))
      ∷ [];
  failure = none;
  written = [];
  closed = false;
}

handshake_run : begin_handshake no_failure (codes "fd7a::1") false request ≡ (
  ok (some 80),
  record { pieces = []; failure = none; written = (5 ∷ 0 ∷ []) ∷ []; closed = false },
)
unfolding begin_handshake or_close handshake choose_method read_request read_address read_port
    enqueue port_of lower_ascii tolower read_exact read_loop read_some write_all and_then done
handshake_run = refl

request-IsBytes : IsBytes (unread request.pieces)
request-IsBytes = ground arith

begin_handshake-Ended_example :
    After
      (Ended (codes "fd7a::1") false (unread request.pieces))
      (λ _. ⊥)
      (begin_handshake no_failure (codes "fd7a::1") false request)
begin_handshake-Ended_example =
    begin_handshake-Ended no_failure (codes "fd7a::1") false (λ ws e. cc) request refl refl
      request-IsBytes
