-- ===== src/Socks/Proxy.antt =====
-- SocksProxy of src/socks_command.cpp behind the handshake: a connection of the proxy and a call of
-- service, built from the relay's parts, and a poll. `reading` says that host_read is there.
pub mod Delivery
use tailcat_in_c.Common.{
  ℕ, Bool, true, false, ◌&&◌, not, List, [], ◌∷◌, ◌++◌, Bytes, empty, if◌then◌else◌, Result, ok,
  err, runtime_error, Run, done, step, reading, and_then,
}
use tailcat_in_c.Lwip.{TcpApi, TcpStream, shutdown_write}
use tailcat_in_c.Relay.{
  HostCall, reader_round, write_reply, close_host, reader_round, Connection, new_connection,
  HostApi, ReaderRound, reader_rounds, is_sent, no_chunks, pop_chunk, with_tunnel, call_host,
  close_both, from_tunnel, to_tunnel, end_host,
}
use tailcat_in_c.Socks.Handshake.{reply_bytes}

pub record SocksConnection : Type 0 where
  pub relay : Connection
  pub replied : Bool
  pub is_reading : Bool

-- A round of the host reader.
unfoldable pub socks_round : ReaderRound → Connection → Connection
socks_round = reader_round

-- A run of the relay's parts on the connection.
unfoldable pub on_relay : {A : Type 0} → Run Connection A → Run SocksConnection A
on_relay m c = let r = m c.relay in (r.0, record c { relay = r.1 })

abbrev pub finish : SocksConnection → SocksConnection
finish c = record c { relay = record c.relay { finished = true } }

module _ (api : TcpApi) (answers : HostApi) where
  abbrev pub shut_tunnel : Result (Unit {0}) × Connection → Result (Unit {0}) × Connection
  shut_tunnel (ok _, c) = (ok tt, record c { tunnel_write_shutdown = true })
  shut_tunnel (err e, c) = (err e, c)

  -- The connection behind the lock of take_host_chunk.
  unfoldable pub use_chunk : Run Connection (Unit {0})
  use_chunk c =
      if not (empty c.host_read.error)
      then (ok tt, record c { finished = true })
      else if (empty c.pending_to_tunnel && c.host_read.eof) && not c.tunnel_write_shutdown
      then shut_tunnel (with_tunnel c (shutdown_write api c.tunnel))
      else (ok tt, c)

  unfoldable pub take_host_chunk : Run SocksConnection (Unit {0})
  take_host_chunk = reading (λ c.
      if not c.is_reading
      then done tt
      else on_relay
          (λ r. if not (is_sent r) then (ok tt, r) else use_chunk (pop_chunk r.host_read.chunks r)))

  unfoldable pub reply : ℕ → Run Connection (Unit {0})
  reply code = call_host api answers (write_reply (reply_bytes code))

  -- The tunnel failed.
  unfoldable pub refuse : Run SocksConnection (Unit {0})
  refuse = reading (λ c.
      and_then (if not c.replied then on_relay (reply 5) else done tt)
        (λ _. step (λ c'. (ok tt, finish c'))))

  unfoldable pub start_relay : Run SocksConnection (Unit {0})
  start_relay = reading (λ c.
      if not c.replied
      then and_then (on_relay (reply 0))
          (λ _. step (λ c'. (ok tt, record c' { replied = true; is_reading = true })))
      else done tt)

  unfoldable pub write_pending : Run Connection (Unit {0})
  write_pending = reading (λ c. if not c.finished then to_tunnel api answers else done tt)

  unfoldable pub move_bytes : Run SocksConnection (Unit {0})
  move_bytes = and_then start_relay (λ _. and_then (on_relay (from_tunnel api answers)) (λ _.
      and_then take_host_chunk
        (λ _. and_then (on_relay write_pending) (λ _. on_relay (end_host api answers)))))

  unfoldable pub finish_relay : List ReaderRound → Run SocksConnection (Unit {0})
  finish_relay rounds = reading (λ c.
      if c.replied && c.is_reading
      then on_relay (
          and_then (step (λ r. (ok tt, reader_rounds rounds r))) (λ _. step (λ r.
            if (r.tunnel.is_eof && r.host_read.eof) && (no_chunks r.host_read.chunks && is_sent r)
            then (ok tt, record r { finished = true })
            else (ok tt, r))))
      else done tt)

  -- The body of service's try. `rounds` is what the reader does before the second lock.
  unfoldable pub service_body : List ReaderRound → Run SocksConnection (Unit {0})
  service_body rounds =
      and_then
        (reading (λ c.
          if c.relay.tunnel.is_failed
          then refuse
          else if c.relay.tunnel.is_connected
          then move_bytes
          else done tt))
        (λ _. finish_relay rounds)

  abbrev pub catch_all : Result (Unit {0}) × SocksConnection → SocksConnection
  catch_all (ok _, c) = c
  catch_all (err e, c) = finish c

  unfoldable pub close_finished : SocksConnection → SocksConnection
  close_finished c =
      if c.relay.finished then record c { relay = close_both api answers c.relay } else c

  unfoldable pub service : List ReaderRound → SocksConnection → SocksConnection
  service rounds c =
      if c.relay.finished then c else close_finished (catch_all (service_body rounds c))

-- A socket whose handshake ended with a port, by its number.
pub record HandshakeResult : Type 0 where
  pub socket : ℕ
  pub port : ℕ

-- `dialled` is the ports that were dialled, the latest first; `handshakes` is the sockets whose handshake
-- was begun, and `refused` those that were answered and closed since dial threw.
pub record SocksProxy : Type 0 where
  pub sockets : List ℕ
  pub error : Bytes
  pub handshakes : List ℕ
  pub ready : List HandshakeResult
  pub connections : List SocksConnection
  pub dialled : List ℕ
  pub refused : List (ℕ × List HostCall)

abbrev pub new_socks : TcpStream → SocksConnection
new_socks tunnel = record { relay = new_connection tunnel; replied = false; is_reading = false }

-- Behind the lock: the sockets are taken, and dropped where an error is thrown.
unfoldable pub accept_new : Run SocksProxy (Unit {0})
accept_new s =
    if not (empty s.error)
    then (err (runtime_error "SOCKS5 listener failed"), record s { sockets = [] })
    else (ok tt, record s { sockets = []; handshakes = s.handshakes ++ s.sockets })

module _ (api : TcpApi) (answers : HostApi) (dial : List ℕ → Result TcpStream) where
  abbrev pub adopt : HandshakeResult → Result TcpStream → SocksProxy → SocksProxy
  adopt item (ok tunnel) s = record s { connections = s.connections ++ (new_socks tunnel ∷ []) }
  adopt item (err e) s = record s {
    refused = (item.socket, close_host ∷ write_reply (reply_bytes 1) ∷ []) ∷ s.refused;
  }

  unfoldable pub adopt_all : List HandshakeResult → SocksProxy → SocksProxy
  adopt_all [] s = s
  adopt_all (item ∷ items) s =
      adopt_all items
        (adopt item (dial (item.port ∷ s.dialled)) (record s { dialled = item.port ∷ s.dialled }))

  unfoldable pub adopt_handshakes : SocksProxy → SocksProxy
  adopt_handshakes s = adopt_all s.ready (record s { ready = [] })

  unfoldable pub service_all : List (List ReaderRound) → List SocksConnection → List SocksConnection
  service_all rounds [] = []
  service_all [] (connection ∷ connections) =
      service api answers [] connection ∷ service_all [] connections
  service_all (now ∷ rounds) (connection ∷ connections) =
      service api answers now connection ∷ service_all rounds connections

  unfoldable pub erase_finished : List SocksConnection → List SocksConnection
  erase_finished [] = []
  erase_finished (connection ∷ connections) =
      let rest = erase_finished connections in
      if connection.relay.finished then rest else connection ∷ rest

  unfoldable pub poll : List (List ReaderRound) → Run SocksProxy (Unit {0})
  poll rounds = and_then accept_new (λ _. step (λ s.
      let adopted = adopt_handshakes s in
      (
        ok tt,
        record adopted { connections = erase_finished (service_all rounds adopted.connections) },
      )))
