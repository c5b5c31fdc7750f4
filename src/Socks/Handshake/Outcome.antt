-- ===== src/Socks/Handshake/Outcome.antt =====
-- How a handshake ends.
use tailcat_in_c.Common.{
  ℕ, ◌≤◌, ◌<◌, ◌^◌, ◌==◌, ◌≡◌, ◌≢◌, refl, sym, ◌∙◌, subst, ap, Bool, true, false, ◌&&◌, ◌||◌, not,
  ◌⊎◌, List, [], ◌∷◌, ◌++◌, append_assoc, Option, none, some, arith, Bytes, IsBytes, length, codes,
  bytes_eq, contains, get_or, if-holds, Error, Result, ok, err, runtime_error, invalid_argument,
  length_error, out_of_fuel, runtime-ne, Run, done, throw, and_then, After, Triple, done-Triple,
  throw-Triple, if-Triple, and_then-Triple,
}
use tailcat_in_c.Socks.Host.{
  Host, read_exact, log_write, write_all, close, unread, IsOpen, read_exact-Triple,
}
use tailcat_in_c.Socks.Handshake.{
  port_of, lower_ascii, dotted, reply_bytes, give_up, socks_reply, refuse, enqueue, read_port,
  read_address, read_request, choose_method, handshake, or_close, begin_handshake,
}
use tailcat_in_c.Socks.Handshake.Request.{
  Addressed, ipv4, named, ipv6, Requests, greeting_bytes, connect_bytes, pair, four, IsBytes-behind,
  port_of_lem, port_of-lt, address_bytes, name_bytes, header_bytes, offer_bytes, to_server_lem,
}

-- Either the connection is closed and nothing was queued, or it is open, the queue is not stopped, the
-- port that the peer requested of the server was queued, and the choice of method is all that was written.
abbrev pub Ended : Bytes → Bool → Bytes → Option ℕ → Host → Type 0
Ended server_address stopped input none host = host.closed ≡ true
Ended server_address stopped input (some port) host =
    (host.closed ≡ false)
    × (host.written ≡ (5 ∷ 0 ∷ []) ∷ [])
    × (stopped ≡ false)
    × (1 ≤ port)
    × (port < 2 ^ 16)
    × Requests server_address input port

abbrev Thrown : Error → Type 0
Thrown e = e ≢ out_of_fuel

module _ (answers : List Bytes → Result (Unit {0})) (server_address : Bytes) (stopped : Bool)
    (writes_end : (ws : List Bytes) → answers ws ≢ err out_of_fuel) (input : Bytes) where
  abbrev Ends : Option ℕ → Host → Type 0
  Ends = Ended server_address stopped input

  give_up-Triple :
      (P : Host → Type 0) → Triple P (give_up answers server_address stopped) Ends Thrown
  unfolding give_up close and_then done
  give_up-Triple P = record { runs = λ s h. refl }

  log_write-After :
      (ws : List Bytes) (seen bytes : Bytes) (s : Host)
      → IsOpen input ws seen s
      → After (λ _ s. IsOpen input (bytes ∷ ws) seen s) Thrown (log_write answers bytes s)
  log_write-After ws seen bytes s h =
      after (answers (bytes ∷ s.written)) (writes_end (bytes ∷ s.written))
    where
      after :
          (r : Result (Unit {0}))
          → r ≢ err out_of_fuel
          → After
              (λ _ s. IsOpen input (bytes ∷ ws) seen s)
              Thrown
              (r, record s { written = bytes ∷ s.written })
      after (ok _) ne = record {
        written = ap (λ w. bytes ∷ w) h.written;
        unclosed = h.unclosed;
        read = h.read;
      }
      after (err x) ne = λ same. ne (ap (λ y. err y) same)

  write_all-Triple :
      (ws : List Bytes) (seen bytes : Bytes)
      → Triple
          (IsOpen input ws seen)
          (write_all answers bytes)
          (λ _ s. IsOpen input (bytes ∷ ws) seen s)
          Thrown
  unfolding write_all throw
  write_all-Triple ws seen bytes = record {
    runs = λ s h.
        if-holds (After (λ _ s. IsOpen input (bytes ∷ ws) seen s) Thrown) s.closed (λ _. runtime-ne)
          (λ _. log_write-After ws seen bytes s h);
  }

  refuse-Triple :
      (ws : List Bytes) (seen : Bytes) (code : ℕ)
      → Triple (IsOpen input ws seen) (refuse answers server_address stopped code) Ends Thrown
  unfolding refuse socks_reply
  refuse-Triple ws seen code =
      and_then-Triple _ (write_all-Triple ws seen (reply_bytes code)) (λ _. give_up-Triple _)

  -- Behind the choice of method.
  abbrev Chosen : Bytes → Host → Type 0
  Chosen seen = IsOpen input ((5 ∷ 0 ∷ []) ∷ []) seen

  -- Reading on in an open connection.
  read_on :
      (size : ℕ) (f : Bytes → Run Host (Option ℕ)) (ws : List Bytes) (seen : Bytes)
      → ((bytes : Bytes)
          → length bytes ≡ size
          → Triple (IsOpen input ws (seen ++ bytes)) (f bytes) Ends Thrown)
      → Triple (IsOpen input ws seen) (and_then (read_exact size) f) Ends Thrown
  read_on size f ws seen k =
      and_then-Triple _ (read_exact-Triple input ws size seen)
        (λ bytes. record { runs = λ s (l, h). (k bytes l).runs s h })

  -- The same bytes, grouped in another way.
  regroup :
      {ws : List Bytes} {seen again : Bytes} {m : Run Host (Option ℕ)}
      → seen ≡ again
      → Triple (IsOpen input ws again) m Ends Thrown
      → Triple (IsOpen input ws seen) m Ends Thrown
  regroup {ws} {m = m} e t = subst (λ seen. Triple (IsOpen input ws seen) m Ends Thrown) (sym e) t

  module _ (valid : IsBytes input) (methods : Bytes) (offered : contains 0 methods ≡ true) where
    granted :
        (address target bytes : Bytes) (s : Host)
        → Addressed address target
        → (lower_ascii target ≡ codes "server.tailcat") ⊎ (target ≡ server_address)
        → length bytes ≡ 2
        → Chosen ((greeting_bytes methods ++ connect_bytes address) ++ bytes) s
        → Requests server_address input (port_of bytes)
    granted address target bytes s addressed to_server l h =
        let shape = pair bytes l in
        let start = greeting_bytes methods ++ connect_bytes address in
        let sent : input ≡ start ++ (get_or bytes 0 0 ∷ get_or bytes 1 0 ∷ unread s.pieces) =
          h.read
          ∙ (append_assoc start bytes (unread s.pieces)
              ∙ ap (λ b. start ++ (b ++ unread s.pieces)) shape) in
        let small = IsBytes-behind start _ (subst IsBytes sent valid) in
        record {
          methods = methods;
          address = address;
          target = target;
          rest = unread s.pieces;
          high = get_or bytes 0 0;
          low = get_or bytes 1 0;
          sent = sent;
          offered = offered;
          addressed = addressed;
          to_server = to_server;
          port_bytes = ap port_of shape ∙ port_of_lem _ _ small.0 small.1.0;
        }

    enqueue-Triple :
        (address target bytes : Bytes)
        → Addressed address target
        → length bytes ≡ 2
        → Triple
            (Chosen ((greeting_bytes methods ++ connect_bytes address) ++ bytes))
            (enqueue answers server_address stopped target (port_of bytes))
            Ends
            Thrown
    unfolding enqueue
    enqueue-Triple address target bytes addressed l =
        if-Triple (port_of bytes == 0) (λ _. refuse-Triple _ _ 1)
          (λ nonzero.
            if-Triple
              (not (bytes_eq (lower_ascii target) (codes "server.tailcat"))
                && not (bytes_eq target server_address))
              (λ _. refuse-Triple _ _ 4)
              (λ named.
                if-Triple stopped (λ _. give_up-Triple _)
                  (λ running. done-Triple (some (port_of bytes)) (λ s h. (
                    h.unclosed,
                    h.written,
                    running,
                    ground arith,
                    port_of-lt bytes,
                    granted address target bytes s addressed
                        (to_server_lem server_address target named) l h,
                  )))))

    read_port-Triple :
        (address target : Bytes)
        → Addressed address target
        → Triple
            (Chosen (greeting_bytes methods ++ connect_bytes address))
            (read_port answers server_address stopped target)
            Ends
            Thrown
    unfolding read_port
    read_port-Triple address target addressed =
        read_on 2 _ _ _ (λ bytes l. enqueue-Triple address target bytes addressed l)

    read_address-Triple :
        (kind : ℕ)
        → Triple
            (Chosen (greeting_bytes methods ++ connect_bytes (kind ∷ [])))
            (read_address answers server_address stopped kind)
            Ends
            Thrown
    unfolding read_address
    read_address-Triple kind =
        if-Triple (kind == 1)
          (λ one. read_on 4 _ _ _ (λ bytes l. regroup (address_bytes methods bytes kind 1 one) (
            read_port-Triple (1 ∷ bytes) (dotted bytes)
              (subst (λ b. Addressed (1 ∷ b) (dotted b)) (sym (four bytes l)) (ipv4 _ _ _ _)))))
          (λ _.
            if-Triple (kind == 3)
              (λ three. read_on 1 _ _ _ (λ size l1. read_on _ _ _ _ (λ name l.
                regroup (name_bytes methods size name kind three l1 l)
                  (read_port-Triple (3 ∷ length name ∷ name) name (named name)))))
              (λ _.
                if-Triple (kind == 4)
                  (λ six. read_on 16 _ _ _ (λ bytes l.
                    regroup (address_bytes methods bytes kind 4 six)
                      (read_port-Triple (4 ∷ bytes) _ (ipv6 bytes l))))
                  (λ _. refuse-Triple _ _ 8)))

    read_request-Triple :
        Triple
          (Chosen (greeting_bytes methods))
          (read_request answers server_address stopped)
          Ends
          Thrown
    unfolding read_request
    read_request-Triple = read_on 4 _ _ _ (λ header l.
        if-Triple (not (get_or header 0 0 == 5) || not (get_or header 2 0 == 0))
          (λ _. throw-Triple _ runtime-ne)
          (λ version.
            if-Triple (not (get_or header 1 0 == 1)) (λ _. refuse-Triple _ _ 7)
              (λ connects.
                regroup
                  (ap (λ b. greeting_bytes methods ++ b) (header_bytes header l version connects))
                  (read_address-Triple (get_or header 3 0)))))

  choose_method-Triple :
      IsBytes input
      → (methods : Bytes)
      → Triple
          (IsOpen input [] (greeting_bytes methods))
          (choose_method answers server_address stopped methods)
          Ends
          Thrown
  unfolding choose_method
  choose_method-Triple valid methods =
      if-Triple (not (contains 0 methods))
        (λ _. and_then-Triple _ (write_all-Triple [] _ (5 ∷ 0xff ∷ [])) (λ _. give_up-Triple _))
        (λ offered.
          and_then-Triple _ (write_all-Triple [] _ (5 ∷ 0 ∷ []))
            (λ _. read_request-Triple valid methods (ground arith)))

  handshake-Triple :
      IsBytes input
      → Triple (IsOpen input [] []) (handshake answers server_address stopped) Ends Thrown
  unfolding handshake
  handshake-Triple valid = read_on 2 _ _ _ (λ greeting l.
      if-Triple (not (get_or greeting 0 0 == 5) || get_or greeting 1 0 == 0)
        (λ _. throw-Triple _ runtime-ne)
        (λ version. read_on (get_or greeting 1 0) _ [] _ (λ methods k.
          regroup (offer_bytes greeting methods l version k) (choose_method-Triple valid methods))))

  or_close-After :
      (r : Result (Option ℕ) × Host)
      → After Ends Thrown r
      → After Ends (λ _. ⊥) (or_close answers server_address stopped (r.0) (r.1))
  unfolding or_close done throw give_up close and_then
  or_close-After (ok a, s) h = h
  or_close-After (err (runtime_error m), s) h = refl
  or_close-After (err (invalid_argument m), s) h = refl
  or_close-After (err (length_error m), s) h = refl
  or_close-After (err out_of_fuel, s) h = absurd (h refl)

-- On a fresh connection the SOCKS5 handshake ends without an exception, whatever bytes are read,
-- however they are cut, wherever recv fails and whichever writes fail, as long as a failing write
-- throws an exception of the program: either the connection is closed and nothing is queued, or it
-- is open, the queue is not stopped, the choice of method is all that was written, and a port from
-- 1 to 65535 is queued, which is the one, high byte first, of a CONNECT request for the server that
-- the peer sent behind a greeting that offers to do without authentication.
pub begin_handshake-Ended :
    (answers : List Bytes → Result (Unit {0})) (server_address : Bytes) (stopped : Bool)
    → ((ws : List Bytes) → answers ws ≢ err out_of_fuel)
    → (host : Host) → host.written ≡ []
    → host.closed ≡ false
    → IsBytes (unread host.pieces)
    → After
        (Ended server_address stopped (unread host.pieces))
        (λ _. ⊥)
        (begin_handshake answers server_address stopped host)
unfolding begin_handshake
begin_handshake-Ended answers server_address stopped writes_end host w c valid =
    let input = unread host.pieces in
    let ends = handshake-Triple answers server_address stopped writes_end input valid in
    or_close-After answers server_address stopped writes_end input _
      (ends.runs host (record { written = w; unclosed = c; read = refl }))
