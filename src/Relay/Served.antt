-- ===== src/Relay/Served.antt =====
-- ServedTcpPorts of src/port_forward.cpp: the ports that a server exposes, and their connections. That a
-- port can be listened on and that the host answers are parameters. std::sort is written as an insertion
-- sort; what it does with equal ports is not seen, since those are refused.
pub mod Ports
pub mod Taking
pub mod Poll
use tailcat_in_c.Common.{
  ℕ, ltb, leb, ◌==◌, Bool, true, false, ◌||◌, not, List, [], ◌∷◌, ◌++◌, map, Option, none, some,
  Bytes, if◌then◌else◌, Result, ok, err, Error, invalid_argument, ◌>>=◌, ◌>>◌, throw_if,
}
use tailcat_in_c.Lwip.{TcpApi, TcpStream, close}
use tailcat_in_c.Relay.{
  Connection, new_connection, HostApi, ReaderRound, served, service_all, erase_finished,
}

pub record ServedTcpMapping : Type 0 where
  pub tailcat_port : ℕ
  pub host_port : ℕ

abbrev pub same_port_mappings : List ℕ → List ServedTcpMapping
same_port_mappings ports = map (λ port. record { tailcat_port = port; host_port = port }) ports

-- `accepted` is the queue of LwipTcpListener, the earliest first.
pub record Listener : Type 0 where
  pub mapping : ServedTcpMapping
  pub accepted : List TcpStream

-- `connects` is the ports of the host that were connected to, the latest first, and `refused` the
-- streams of the tunnel that were closed since the host did not answer.
pub record ServedTcpPorts : Type 0 where
  pub served_mappings : List ServedTcpMapping
  pub exposed_ports : List ℕ
  pub listeners : List Listener
  pub connections : List Connection
  pub connects : List ℕ
  pub refused : List TcpStream

abbrev pub insert_mapping : ServedTcpMapping → List ServedTcpMapping → List ServedTcpMapping
insert_mapping new [] = new ∷ []
insert_mapping new (mapping ∷ mappings) =
    let rest = insert_mapping new mappings in
    if leb new.tailcat_port mapping.tailcat_port then new ∷ mapping ∷ mappings else mapping ∷ rest

unfoldable pub sort_mappings : List ServedTcpMapping → List ServedTcpMapping
sort_mappings [] = []
sort_mappings (mapping ∷ mappings) = insert_mapping mapping (sort_mappings mappings)

abbrev pub is_repeated : Option ℕ → ℕ → Bool
is_repeated none port = false
is_repeated (some before) port = before == port

-- The loop of the constructor; `before` is the port of the mapping before this one.
unfoldable pub listen_all :
    (ℕ → Result (Unit {0})) → Option ℕ → List ServedTcpMapping → Result (List Listener)
listen_all listen before [] = ok []
listen_all listen before (mapping ∷ mappings) =
    throw_if (mapping.tailcat_port == 0 || mapping.host_port == 0)
      (invalid_argument "cannot serve TCP port zero")
    >> (throw_if (is_repeated before mapping.tailcat_port)
          (invalid_argument "duplicate served Tailcat TCP port")
        >> (listen mapping.tailcat_port
            >> (listen_all listen (some mapping.tailcat_port) mappings
                >>= (λ listeners. ok (record { mapping = mapping; accepted = [] } ∷ listeners)))))

abbrev pub is_none : {A : Type 0} → List A → Bool
is_none [] = true
is_none (x ∷ xs) = false

unfoldable pub serve_ports : (ℕ → Result (Unit {0})) → List ServedTcpMapping → Result ServedTcpPorts
serve_ports listen mappings =
    throw_if (is_none mappings) (invalid_argument "serve requires at least one TCP port")
    >> (listen_all listen none (sort_mappings mappings) >>= (λ listeners. ok (record {
      served_mappings = sort_mappings mappings;
      exposed_ports = map (λ listener. listener.mapping.tailcat_port) listeners;
      listeners = listeners;
      connections = [];
      connects = [];
      refused = [];
    })))

module _ (api : TcpApi) (answers : HostApi) (connect : List ℕ → Result (Unit {0})) where
  abbrev pub adopt : Result (Unit {0}) → TcpStream → ServedTcpPorts → ServedTcpPorts
  adopt (ok _) tunnel s = record s { connections = s.connections ++ (new_connection tunnel ∷ []) }
  adopt (err e) tunnel s = record s { refused = close api tunnel ∷ s.refused }

  -- The streams of one listener, each with a connection to its host port.
  unfoldable pub accept_streams : ℕ → List TcpStream → ServedTcpPorts → ServedTcpPorts
  accept_streams port [] s = s
  accept_streams port (tunnel ∷ tunnels) s =
      accept_streams port tunnels
        (adopt (connect (port ∷ s.connects)) tunnel (record s { connects = port ∷ s.connects }))

  unfoldable pub accept_listeners : List Listener → ServedTcpPorts → ServedTcpPorts
  accept_listeners [] s = s
  accept_listeners (listening ∷ others) s =
      accept_listeners others (accept_streams listening.mapping.host_port listening.accepted s)

  abbrev pub emptied : Listener → Listener
  emptied listening = record listening { accepted = [] }

  unfoldable pub accept_new : ServedTcpPorts → ServedTcpPorts
  accept_new s = accept_listeners s.listeners (record s { listeners = map emptied s.listeners })

  unfoldable pub poll : List (List ReaderRound) → ServedTcpPorts → ServedTcpPorts
  poll rounds s =
      let accepted = accept_new s in
      record accepted {
        connections = erase_finished (service_all api answers served rounds accepted.connections);
      }
