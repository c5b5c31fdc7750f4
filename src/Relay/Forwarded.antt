-- ===== src/Relay/Forwarded.antt =====
-- LocalTcpForwarder of src/local_forward.cpp: local ports whose connections are dialled through the
-- tunnel. Its reader, take_host_chunk and service are those of the relay with a tunnel that may still
-- be connecting. Sockets of the host and TailcatClientDataPlane::dial are parameters.
pub mod Taking
pub mod Ports
pub mod Poll
use tailcat_in_c.Common.{
  ℕ, ◌==◌, Bool, true, false, not, List, [], ◌∷◌, ◌++◌, map, Bytes, empty, if◌then◌else◌, Result,
  ok, err, Error, runtime_error, invalid_argument, ◌>>=◌, ◌>>◌, throw_if,
}
use tailcat_in_c.Lwip.{TcpApi, TcpStream, close}
use tailcat_in_c.Relay.{
  HostCall, close_host, HostReadState, Connection, new_connection, HostApi, ReaderRound,
  reader_round, forwarded, take_host_chunk, service, service_all, erase_finished,
}

pub record TcpForwardMapping : Type 0 where
  pub local_port : ℕ
  pub remote_port : ℕ

-- AcceptedQueue and Listener. A socket is known by its number; `turned_away` is those that came behind
-- the end, and were closed.
pub record Listener : Type 0 where
  pub mapping : TcpForwardMapping
  pub sockets : List ℕ
  pub stopped : Bool
  pub error : Bytes
  pub turned_away : List ℕ
  pub listener_closed : Bool

-- `dialled` is the ports that were dialled, the latest first, and `refused` the sockets that were closed
-- since dial threw.
pub record LocalTcpForwarder : Type 0 where
  pub listeners : List Listener
  pub connections : List Connection
  pub dialled : List ℕ
  pub refused : List ℕ

-- Port 0 is replaced by the one that the system bound.
unfoldable pub bound_mapping : ℕ → TcpForwardMapping → TcpForwardMapping
bound_mapping port mapping =
    if mapping.local_port == 0 then record mapping { local_port = port } else mapping

-- The loop of the constructor; `requested` is the local ports that were listened on so far, the latest
-- first. `listen` answers such a list by the port that the system bound for the latest, and may bind
-- another one for each request of port 0.
unfoldable pub listen_all :
    (List ℕ → Result ℕ) → List ℕ → List TcpForwardMapping → Result (List Listener)
listen_all listen requested [] = ok []
listen_all listen requested (mapping ∷ mappings) =
    throw_if (mapping.remote_port == 0) (invalid_argument "remote forward port must be non-zero")
    >> (listen (mapping.local_port ∷ requested) >>= (λ port.
        listen_all listen (mapping.local_port ∷ requested) mappings >>= (λ listeners. ok (
          record {
            mapping = bound_mapping port mapping;
            sockets = [];
            stopped = false;
            error = [];
            turned_away = [];
            listener_closed = false;
          }
          ∷ listeners))))

abbrev pub is_none : {A : Type 0} → List A → Bool
is_none [] = true
is_none (x ∷ xs) = false

unfoldable pub forward_ports :
    (List ℕ → Result ℕ) → List TcpForwardMapping → Result LocalTcpForwarder
forward_ports listen mappings =
    throw_if (is_none mappings) (invalid_argument "forward requires at least one port mapping")
    >> (listen_all listen [] mappings >>= (λ listeners.
        ok (record { listeners = listeners; connections = []; dialled = []; refused = [] })))

-- A round of the accepting thread: a socket, or the text of what accept threw.
pub data Accepted : Type 0 where
  socket : ℕ → Accepted
  failed : Bytes → Accepted

unfoldable pub accepting : Accepted → Listener → Listener
accepting (socket name) l =
    if l.stopped
    then record l { turned_away = name ∷ l.turned_away }
    else record l { sockets = l.sockets ++ (name ∷ []) }
accepting (failed text) l = if l.stopped then l else record l { error = text }

-- A round of the host reader.
unfoldable pub forwarded_round : ReaderRound → Connection → Connection
forwarded_round = reader_round

module _ (api : TcpApi) (answers : HostApi) (dial : List ℕ → Result TcpStream) where
  abbrev pub forward_connection : ℕ → Result TcpStream → LocalTcpForwarder → LocalTcpForwarder
  forward_connection name (ok tunnel) s = record s {
    connections = s.connections ++ (new_connection tunnel ∷ []);
  }
  forward_connection name (err e) s = record s { refused = name ∷ s.refused }

  -- The sockets of one listener, the earliest first.
  unfoldable pub accept_sockets : ℕ → List ℕ → LocalTcpForwarder → LocalTcpForwarder
  accept_sockets port [] s = s
  accept_sockets port (name ∷ names) s =
      accept_sockets port names (
        forward_connection name (dial (port ∷ s.dialled)) (record s { dialled = port ∷ s.dialled }))

  -- Behind the lock of accept_new: the sockets are taken, and dropped where an error is thrown.
  unfoldable pub accept_listeners :
      List Listener → LocalTcpForwarder → Result (Unit {0}) × LocalTcpForwarder
  accept_listeners [] s = (ok tt, s)
  accept_listeners (listening ∷ others) s =
      let s' = record s { listeners = s.listeners ++ (record listening { sockets = [] } ∷ []) } in
      if not (empty listening.error)
      then (
        err (runtime_error "local TCP listener failed"),
        record s' { listeners = s'.listeners ++ others },
      )
      else accept_listeners others
          (accept_sockets listening.mapping.remote_port listening.sockets s')

  unfoldable pub accept_new : LocalTcpForwarder → Result (Unit {0}) × LocalTcpForwarder
  accept_new s = accept_listeners s.listeners (record s { listeners = [] })

  unfoldable pub take_forwarded_chunk : Connection → Result (Unit {0}) × Connection
  take_forwarded_chunk = take_host_chunk api answers forwarded

  unfoldable pub service_forwarded : List ReaderRound → Connection → Connection
  service_forwarded = service api answers forwarded

  abbrev pub poll_connections :
      List (List ReaderRound)
      → Result (Unit {0}) × LocalTcpForwarder
      → Result (Unit {0}) × LocalTcpForwarder
  poll_connections rounds (ok _, s) = (
    ok tt,
    record s {
      connections = erase_finished (service_all api answers forwarded rounds s.connections);
    },
  )
  poll_connections rounds (err e, s) = (err e, s)

  unfoldable pub poll :
      List (List ReaderRound) → LocalTcpForwarder → Result (Unit {0}) × LocalTcpForwarder
  poll rounds s = poll_connections rounds (accept_new s)

  -- The destructor: every listener is stopped and closed, and every connection closed.
  abbrev pub stopped_listener : Listener → Listener
  stopped_listener l = record l { stopped = true; listener_closed = true }

  abbrev pub closed_connection : Connection → Connection
  closed_connection c = record c { host = close_host ∷ c.host; tunnel = close api c.tunnel }

  unfoldable pub destroy : LocalTcpForwarder → LocalTcpForwarder
  destroy s = record s {
    listeners = map stopped_listener s.listeners;
    connections = map closed_connection s.connections;
  }
