-- ===== src/Relay.antt =====
-- The relay between a TCP connection of the host and one of the tunnel, as src/port_forward.cpp has it
-- for served ports and src/local_forward.cpp for forwarded ones: one connection of ServedTcpPorts or
-- LocalTcpForwarder, its host reader, and a call of service.
pub mod Accounts
pub mod Served
pub mod Forwarded
pub mod Pool
pub mod Adoption
pub mod Pipe
pub mod Passing
pub mod Body
pub mod Delivery
use tailcat_in_c.Common.{
  ℕ, ◌+◌, ◌-◌, ltb, ◌==◌, Bool, true, false, ◌&&◌, not, List, [], ◌∷◌, ◌++◌, Bytes, empty, length,
  drop, if◌then◌else◌, Result, ok, err, Run, done, step, reading, and_then,
}
use tailcat_in_c.Lwip.{
  TcpApi, TcpStream, write, read_available, shutdown_write, close, accepted_stream, dialled_stream,
}

-- A call of the host's connection. `read_some` is a piece that the reader queued; `write_reply` is a
-- write_all of a SOCKS proxy for itself.
pub data HostCall : Type 0 where
  read_some write_all write_reply : Bytes → HostCall
  shut_host close_host : HostCall

unfoldable pub bytes_read : List HostCall → Bytes
bytes_read [] = []
bytes_read (read_some piece ∷ calls) = bytes_read calls ++ piece
bytes_read (_ ∷ calls) = bytes_read calls

unfoldable pub bytes_written : List HostCall → Bytes
bytes_written [] = []
bytes_written (write_all piece ∷ calls) = bytes_written calls ++ piece
bytes_written (_ ∷ calls) = bytes_written calls

pub record HostReadState : Type 0 where
  pub chunks : List Bytes
  pub eof : Bool
  pub error : Bytes

-- `host` is the calls of the host's stream, the latest first.
pub record Connection : Type 0 where
  pub tunnel : TcpStream
  pub host : List HostCall
  pub host_read : HostReadState
  pub pending_to_tunnel : Bytes
  pub pending_offset : ℕ
  pub tunnel_write_shutdown : Bool
  pub host_write_shutdown : Bool
  pub finished : Bool

abbrev pub new_connection : TcpStream → Connection
new_connection tunnel = record {
  tunnel = tunnel;
  host = [];
  host_read = record { chunks = []; eof = false; error = [] };
  pending_to_tunnel = [];
  pending_offset = 0;
  tunnel_write_shutdown = false;
  host_write_shutdown = false;
  finished = false;
}

-- A round of the host reader's loop: what read_some returned, or the text of what it threw. The
-- thread has ended where eof is set.
pub data ReaderRound : Type 0 where
  returned failed : Bytes → ReaderRound

abbrev pub queue_piece : Bytes → Connection → Connection
queue_piece piece c =
    if empty piece then record c { host_read = record c.host_read { eof = true } } else record c {
      host = read_some piece ∷ c.host;
      host_read = record c.host_read { chunks = c.host_read.chunks ++ (piece ∷ []) };
    }

abbrev pub reader_loop : ReaderRound → Connection → Connection
reader_loop (returned piece) c = queue_piece piece c
reader_loop (failed text) c = record c {
  host_read = record c.host_read { eof = true; error = text };
}

unfoldable pub reader_round : ReaderRound → Connection → Connection
reader_round round c = if c.host_read.eof then c else reader_loop round c

unfoldable pub reader_rounds : List ReaderRound → Connection → Connection
reader_rounds [] c = c
reader_rounds (round ∷ rounds) c = reader_rounds rounds (reader_round round c)

-- Who relays: a served port, or a local forward, whose tunnel may not be connected yet.
pub data Side : Type 0 where
  served forwarded : Side

-- The test of connected() that only local_forward.cpp has.
abbrev pub is_ready : Side → TcpStream → Bool
is_ready served tunnel = true
is_ready forwarded tunnel = tunnel.is_connected

abbrev pub is_sent : Connection → Bool
is_sent c = c.pending_offset == length c.pending_to_tunnel

abbrev pub no_chunks : List Bytes → Bool
no_chunks [] = true
no_chunks (piece ∷ pieces) = false

-- The tunnel's operations, on a connection.
abbrev pub with_tunnel : {A : Type 0} → Connection → Result A × TcpStream → Result A × Connection
with_tunnel c (answer, tunnel) = (answer, record c { tunnel = tunnel })

-- What of the host's connection throws, by its calls so far and the new one.
abbrev pub HostApi : Type 0
HostApi = List HostCall → Result (Unit {0})

-- The next piece of the host goes to pending_to_tunnel; pending_offset is 0.
abbrev pub pop_chunk : List Bytes → Connection → Connection
pop_chunk [] c = record c { pending_to_tunnel = []; pending_offset = 0 }
pop_chunk (piece ∷ pieces) c = record c {
  pending_to_tunnel = piece;
  pending_offset = 0;
  host_read = record c.host_read { chunks = pieces };
}

abbrev pub advance : Result ℕ × Connection → Result (Unit {0}) × Connection
advance (ok amount, c) = (ok tt, record c { pending_offset = c.pending_offset + amount })
advance (err e, c) = (err e, c)

module _ (api : TcpApi) (answers : HostApi) where
  unfoldable pub call_host : HostCall → Run Connection (Unit {0})
  call_host call c = (answers (call ∷ c.host), record c { host = call ∷ c.host })

  -- Both ends are closed, and the connection is finished.
  unfoldable pub close_both : Connection → Connection
  close_both c = record c {
    tunnel = close api c.tunnel;
    host = close_host ∷ c.host;
    finished = true;
  }

  abbrev pub or_finish : Result (Unit {0}) × Connection → Result (Unit {0}) × Connection
  or_finish (ok _, c) = (ok tt, record c { tunnel_write_shutdown = true })
  or_finish (err e, c) = (ok tt, close_both c)

  -- The connection behind the lock of take_host_chunk.
  unfoldable pub use_chunk : Side → Run Connection (Unit {0})
  use_chunk side c =
      if not (empty c.host_read.error)
      then (ok tt, close_both c)
      else if (empty c.pending_to_tunnel && c.host_read.eof)
          && (is_ready side c.tunnel && not c.tunnel_write_shutdown)
      then or_finish (with_tunnel c (shutdown_write api c.tunnel))
      else (ok tt, c)

  unfoldable pub take_host_chunk : Side → Run Connection (Unit {0})
  take_host_chunk side c =
      if not (is_sent c) then (ok tt, c) else use_chunk side (pop_chunk c.host_read.chunks c)

  unfoldable pub from_tunnel : Run Connection (Unit {0})
  from_tunnel =
      and_then (step (λ c. with_tunnel c (read_available api (length c.tunnel.received) c.tunnel)))
        (λ octets. if empty octets then done tt else call_host (write_all octets))

  unfoldable pub to_tunnel : Run Connection (Unit {0})
  to_tunnel c =
      if ltb c.pending_offset (length c.pending_to_tunnel)
      then advance (with_tunnel c (write api (drop c.pending_offset c.pending_to_tunnel) c.tunnel))
      else (ok tt, c)

  unfoldable pub end_host : Run Connection (Unit {0})
  end_host = reading (λ c.
      if c.tunnel.is_eof && not c.host_write_shutdown
      then and_then (call_host shut_host)
          (λ _. step (λ c'. (ok tt, record c' { host_write_shutdown = true })))
      else done tt)

  unfoldable pub finish_relay : Run Connection (Unit {0})
  finish_relay c =
      if (c.tunnel.is_eof && c.host_read.eof) && (no_chunks c.host_read.chunks && is_sent c)
      then (ok tt, close_both c)
      else (ok tt, c)

  -- What is behind take_host_chunk where that did not finish the connection.
  unfoldable pub unless_finished : Run Connection (Unit {0}) → Run Connection (Unit {0})
  unless_finished m = reading (λ c. if c.finished then done tt else m)

  unfoldable pub move_bytes : Side → Run Connection (Unit {0})
  move_bytes side = and_then from_tunnel (λ _.
      and_then (take_host_chunk side) (λ _. unless_finished (and_then to_tunnel (λ _. end_host))))

  -- The body of service's try. `rounds` is what the reader does before the second lock.
  unfoldable pub service_body : Side → List ReaderRound → Run Connection (Unit {0})
  service_body side rounds =
      and_then (reading (λ c. if is_ready side c.tunnel then move_bytes side else done tt)) (λ _.
        unless_finished
          (and_then (step (λ c. (ok tt, reader_rounds rounds c))) (λ _. finish_relay)))

  abbrev pub catch_all : Result (Unit {0}) × Connection → Connection
  catch_all (ok _, c) = c
  catch_all (err e, c) = close_both c

  unfoldable pub service : Side → List ReaderRound → Connection → Connection
  service side rounds c =
      if c.finished
      then c
      else if c.tunnel.is_failed
      then close_both c
      else catch_all (service_body side rounds c)

  -- The connections of a poll; `rounds` is what the reader of each does meanwhile.
  unfoldable pub service_all : Side → List (List ReaderRound) → List Connection → List Connection
  service_all side rounds [] = []
  service_all side [] (connection ∷ connections) =
      service side [] connection ∷ service_all side [] connections
  service_all side (now ∷ rounds) (connection ∷ connections) =
      service side now connection ∷ service_all side rounds connections

unfoldable pub erase_finished : List Connection → List Connection
erase_finished [] = []
erase_finished (connection ∷ connections) =
    let rest = erase_finished connections in if connection.finished then rest else connection ∷ rest
