-- ===== src/Tests/Relay.antt =====
-- A connection that is relayed, ports that are served and forwarded, and a connection of the proxy.
use tailcat_in_c.Common.{
  ℕ, ◌+◌, ◌≡◌, ◌≢◌, refl, true, false, List, [], ◌∷◌, codes, Result, ok, err, runtime_error, Each,
  invalid_argument, map, sym, subst, ok-injective, ◌==◌, if◌then◌else◌, ltb, length, arith, done,
  and_then, step, reading,
}
use tailcat_in_c.Lwip.{
  TcpApi, TcpCall, err_ok, sent_bytes, accepted_stream, dialled_stream, TcpStream, write,
  read_available,
}
use tailcat_in_c.Relay.{
  HostApi, Connection, new_connection, ReaderRound, returned, reader_round, reader_rounds, served,
  service, service_body, move_bytes, from_tunnel, to_tunnel, end_host, finish_relay,
  take_host_chunk, use_chunk, unless_finished, call_host,
}
use tailcat_in_c.Relay.Delivery.{
  IsRelay, starts, goes_on, reads, services, Waiting, opened, Reached-IsRelay,
}
use tailcat_in_c.Relay.Served.{
  ServedTcpMapping, ServedTcpPorts, same_port_mappings, sort_mappings, listen_all, serve_ports,
  poll,
}
use tailcat_in_c.Relay.Served.Ports.{Serves, IsServed, serve_ports-Serves, serve_ports-returns}
use tailcat_in_c.Relay.Served.Poll.{IsPool, poll-IsPool}
use tailcat_in_c.Relay.Served.Taking.{Polls}
use tailcat_in_c.Relay.Forwarded as Local
use tailcat_in_c.Relay.Forwarded.Poll.{Polled, poll-Polled}
use tailcat_in_c.Relay.Forwarded.Ports.{Forwards, forward_ports-Forwards}
use tailcat_in_c.Relay.Forwarded.Taking as Taking
use tailcat_in_c.Socks.Proxy as Proxy
use tailcat_in_c.Socks.Proxy.Delivery as Proxied

-- lwIP takes two bytes at a time, and nothing fails.
abbrev pub two_at_a_time : TcpApi
two_at_a_time = record {
  tcp_sndbuf = λ calls. 2;
  on_write = λ calls octets. err_ok;
  on_output = λ calls. err_ok;
  on_shutdown = λ calls. err_ok;
  on_close = λ calls. err_ok;
}

abbrev pub willing : HostApi
willing calls = ok tt

abbrev quiet : List ReaderRound
quiet = []

-- The host sends five bytes and ends, and the tunnel delivers two.
abbrev loaded : Connection
loaded = reader_rounds (returned (codes "hello") ∷ returned [] ∷ []) (
    new_connection (record accepted_stream {
      received = codes "ok";
      calls = TcpCall.tcp_recved (codes "ok") ∷ [];
    }))

service_run :
    sent_bytes
      (service two_at_a_time willing served quiet
        (service two_at_a_time willing served quiet loaded)).tunnel.calls
    ≡ codes "hell"
unfolding service service_body move_bytes from_tunnel to_tunnel end_host finish_relay
    take_host_chunk use_chunk unless_finished call_host reader_rounds reader_round and_then step
    reading done write read_available sent_bytes
service_run = refl

Reached-IsRelay_example : IsRelay (
    service two_at_a_time willing served quiet
      (reader_round (returned (codes "hello")) (new_connection accepted_stream)))
Reached-IsRelay_example =
    Reached-IsRelay two_at_a_time willing served
      (goes_on (goes_on (starts (opened true)) (reads (returned (codes "hello")))) (services quiet))

abbrev can_listen : ℕ → Result (Unit {0})
can_listen port = ok tt

abbrev web_and_ssh : List ServedTcpMapping
web_and_ssh =
    record { tailcat_port = 80; host_port = 8080 }
    ∷ record { tailcat_port = 22; host_port = 22 }
    ∷ []

abbrev ssh_and_web : List ServedTcpMapping
ssh_and_web =
    record { tailcat_port = 22; host_port = 22 }
    ∷ record { tailcat_port = 80; host_port = 8080 }
    ∷ []

abbrev serving : ServedTcpPorts
serving = record {
  served_mappings = ssh_and_web;
  exposed_ports = 22 ∷ 80 ∷ [];
  listeners = map (λ mapping. record { mapping = mapping; accepted = [] }) ssh_and_web;
  connections = [];
  connects = [];
  refused = [];
}

serves : serve_ports can_listen web_and_ssh ≡ ok serving
unfolding serve_ports sort_mappings listen_all
serves = refl

serve_ports_twice :
    serve_ports can_listen (same_port_mappings (22 ∷ 80 ∷ 22 ∷ []))
    ≡ err (invalid_argument "duplicate served Tailcat TCP port")
unfolding serve_ports sort_mappings listen_all
serve_ports_twice = refl

serve_ports-Serves_example : Serves can_listen web_and_ssh serving
serve_ports-Serves_example = serve_ports-Serves can_listen web_and_ssh serving serves

sorted : sort_mappings web_and_ssh ≡ ssh_and_web
unfolding sort_mappings
sorted = refl

serve_ports-returns_example : (s : ServedTcpPorts) × (serve_ports can_listen web_and_ssh ≡ ok s)
serve_ports-returns_example =
    serve_ports-returns can_listen (λ port. refl) web_and_ssh (λ e. cc)
      (subst (IsServed 0) (sym sorted)
        (omega arith, (λ e. omega arith), (omega arith, (λ e. omega arith), tt)))

-- Two streams wait; the second connection to the host fails.
abbrev connects_once : List ℕ → Result (Unit {0})
connects_once ports = if ltb (length ports) 2 then ok tt else err (runtime_error "refused")

abbrev two_waiting : ServedTcpPorts
two_waiting = record serving {
  listeners =
      record {
        mapping = record { tailcat_port = 22; host_port = 22 };
        accepted = accepted_stream ∷ accepted_stream ∷ [];
      }
      ∷ [];
}

poll-IsPool_example :
    IsPool two_at_a_time willing connects_once
      (poll two_at_a_time willing connects_once [] two_waiting)
    × Each
        (λ (c : Connection). c.finished ≡ false)
        (poll two_at_a_time willing connects_once [] two_waiting).connections
    × Polls two_at_a_time willing connects_once two_waiting
        (poll two_at_a_time willing connects_once [] two_waiting)
poll-IsPool_example =
    poll-IsPool two_at_a_time willing connects_once [] two_waiting
      (record { waiting = ((opened true, (opened true, tt)), tt); reached = tt })

-- A local forward to port 80, with a connection that waits.
abbrev dials : List ℕ → Result TcpStream
dials ports = ok dialled_stream

-- The system binds another port for each request of port 0.
abbrev any_port : List ℕ → Result ℕ
any_port [] = err (runtime_error "no port")
any_port (port ∷ before) = ok (if port == 0 then 50000 + length before else port)

abbrev to_both : List Local.TcpForwardMapping
to_both =
    record { local_port = 0; remote_port = 80 } ∷ record { local_port = 0; remote_port = 22 } ∷ []

abbrev listening_on : ℕ → ℕ → Local.Listener
listening_on local remote = record {
  mapping = record { local_port = local; remote_port = remote };
  sockets = [];
  stopped = false;
  error = [];
  turned_away = [];
  listener_closed = false;
}

abbrev forwarding : Local.LocalTcpForwarder
forwarding = record {
  listeners = listening_on 50000 80 ∷ listening_on 50001 22 ∷ [];
  connections = [];
  dialled = [];
  refused = [];
}

forwards : Local.forward_ports any_port to_both ≡ ok forwarding
unfolding Local.forward_ports Local.listen_all Local.bound_mapping
forwards = refl

forward_ports-Forwards_example :
    (to_both ≢ [])
    × Forwards any_port [] to_both forwarding.listeners
    × (forwarding.connections ≡ [])
forward_ports-Forwards_example = forward_ports-Forwards any_port to_both forwarding forwards

abbrev one_socket : Local.LocalTcpForwarder
one_socket = record forwarding {
  listeners = map (λ (l : Local.Listener). record l { sockets = 7 ∷ [] }) forwarding.listeners;
}

dials-Waiting : (ports : List ℕ) (tunnel : TcpStream) → dials ports ≡ ok tunnel → Waiting tunnel
dials-Waiting ports tunnel e = subst Waiting (ok-injective e) (opened false)

poll-Polled_example :
    Polled two_at_a_time willing dials dials-Waiting
      (Local.poll two_at_a_time willing dials [] one_socket)
    × Taking.Polls two_at_a_time willing dials one_socket
        (Local.poll two_at_a_time willing dials [] one_socket)
poll-Polled_example = poll-Polled two_at_a_time willing dials dials-Waiting [] one_socket tt

-- A connection of the proxy: it is answered, and relays.
SocksReached-IsRelay_example :
    IsRelay
      (Proxy.service two_at_a_time willing quiet
        (Proxy.service two_at_a_time willing quiet (Proxy.new_socks accepted_stream))).relay
SocksReached-IsRelay_example = Proxied.SocksReached-IsRelay two_at_a_time willing (
    Proxied.goes_on (Proxied.goes_on (Proxied.starts (opened true)) (Proxied.services quiet))
      (Proxied.services quiet))
