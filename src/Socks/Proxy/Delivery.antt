-- ===== src/Socks/Proxy/Delivery.antt =====
-- The relay of SocksProxy of src/socks_command.cpp loses and reorders nothing.
use tailcat_in_c.Common.{
  ℕ, ◌≡◌, refl, Bool, true, not, ◌&&◌, List, [], empty, Result, ok, err, arith, if-holds, Run, Kept,
  Guards, done-Guards, step-Guards, reading-Guards, if-Guards, if-Kept, and_then-Guards,
}
use tailcat_in_c.Lwip.{TcpApi, TcpStream}
use tailcat_in_c.Lwip.Sending.{KeptBytes, shutdown_write-bytes}
use tailcat_in_c.Relay.{
  bytes_read, bytes_written, write_reply, Connection, HostApi, ReaderRound, reader_round, is_sent,
  no_chunks, pop_chunk, with_tunnel,
}
use tailcat_in_c.Relay.Accounts.{
  queue, IsRunning, IsSound, running-IsSound, reader_rounds-IsRunning, same-IsRunning,
  close_both-IsSound,
}
use tailcat_in_c.Relay.Passing.{popped, call_host-Guards, from_tunnel-Guards, to_tunnel-Guards}
use tailcat_in_c.Relay.Body.{popped-empty, end_host-Guards, close_both-finished}
use tailcat_in_c.Relay.Delivery.{
  IsRelay, Callback, called_back, Waiting, new-IsRunning, reads-IsRelay, calls_back-IsRelay,
}
use tailcat_in_c.Socks.Handshake.{reply_bytes}
use tailcat_in_c.Socks.Proxy.{
  SocksConnection, on_relay, shut_tunnel, use_chunk, take_host_chunk, reply, refuse, start_relay,
  write_pending, move_bytes, finish_relay, service_body, catch_all, close_finished, service,
  new_socks,
}

abbrev Running : SocksConnection → Type 0
Running c = IsRunning c.relay

abbrev Sound : SocksConnection → Type 0
Sound c = IsSound c.relay

-- `finished` is not part of the account.
with_finished : (f : Bool) (c : Connection) → IsRunning c → IsRunning (record c { finished = f })
with_finished f c h = record {
  forth = h.forth;
  within = h.within;
  pieces = h.pieces;
  back = h.back;
  ended = h.ended;
}

lifted :
    {A : Type 0} (c : SocksConnection) (r : Result A × Connection)
    → Kept IsRunning IsSound r
    → Kept Running Sound (r.0, record c { relay = r.1 })
lifted c (ok a, relay) h = h
lifted c (err e, relay) h = h

on_relay-Guards :
    {A : Type 0} {m : Run Connection A}
    → Guards IsRunning IsSound m
    → Guards Running Sound (on_relay m)
unfolding on_relay
on_relay-Guards {m} g = record { guards = λ c h. lifted c (m c.relay) (g.guards c.relay h) }

module _ (api : TcpApi) (answers : HostApi) where
  shut-Kept :
      (c : Connection) (r : Result (Unit {0}) × TcpStream)
      → KeptBytes c.tunnel (r.1)
      → c.host_read.eof ≡ true
      → queue c ≡ []
      → IsRunning c
      → Kept IsRunning IsSound (shut_tunnel api answers (with_tunnel c r))
  shut-Kept c (ok _, tunnel) same e q h =
      same-IsRunning c tunnel same c.host refl refl c.finished true (λ _. (e, q)) h
  shut-Kept c (err x, tunnel) same e q h = running-IsSound _ (
      same-IsRunning c tunnel same c.host refl refl c.finished c.tunnel_write_shutdown (λ _. (e, q))
        h)

  use_chunk-Kept :
      (c : Connection)
      → (empty c.pending_to_tunnel ≡ true → queue c ≡ [])
      → IsRunning c
      → Kept IsRunning IsSound (use_chunk api answers c)
  unfolding use_chunk
  use_chunk-Kept c q h =
      if-Kept IsRunning IsSound (not (empty c.host_read.error)) _ _ (λ _. with_finished true c h)
        (λ _.
          if-Kept IsRunning IsSound
            ((empty c.pending_to_tunnel && c.host_read.eof) && not c.tunnel_write_shutdown) _ _
            (λ e.
              shut-Kept c _ (shutdown_write-bytes api c.tunnel) (ground arith) (q (ground arith)) h)
            (λ _. h))

  take_host_chunk-Guards : Guards Running Sound (take_host_chunk api answers)
  unfolding take_host_chunk
  take_host_chunk-Guards = reading-Guards Running Sound _ (λ c h.
      (if-Guards Running Sound (not c.is_reading) (λ _. done-Guards Running Sound tt)
          (λ _. on_relay-Guards (record {
            guards = λ r k.
                if-Kept IsRunning IsSound (not (is_sent r)) _ _ (λ _. k)
                  (λ e.
                    use_chunk-Kept (pop_chunk r.host_read.chunks r)
                      (popped-empty r.host_read.chunks r refl k.pieces)
                      (popped r.host_read.chunks r refl (ground arith) k));
          }))).guards
        c h)

  reply-Guards : (code : ℕ) → Guards IsRunning IsSound (reply api answers code)
  unfolding reply bytes_read bytes_written
  reply-Guards code = record {
    guards = λ c h. call_host-Guards api answers c (write_reply (reply_bytes code)) refl refl h;
  }

  refuse-Guards : Guards Running Sound (refuse api answers)
  unfolding refuse
  refuse-Guards = reading-Guards Running Sound _ (λ c h.
      (and_then-Guards Running Sound
          (if-Guards Running Sound (not c.replied) (λ _. on_relay-Guards (reply-Guards 5))
            (λ _. done-Guards Running Sound tt))
          (λ _. step-Guards Running Sound _ (λ c' h'. with_finished true c'.relay h'))).guards
        c h)

  start_relay-Guards : Guards Running Sound (start_relay api answers)
  unfolding start_relay
  start_relay-Guards = reading-Guards Running Sound _ (λ c h.
      (if-Guards Running Sound (not c.replied)
          (λ _.
            and_then-Guards Running Sound (on_relay-Guards (reply-Guards 0))
              (λ _. step-Guards Running Sound _ (λ c' h'. h')))
          (λ _. done-Guards Running Sound tt)).guards
        c h)

  write_pending-Guards : Guards IsRunning IsSound (write_pending api answers)
  unfolding write_pending
  write_pending-Guards = reading-Guards IsRunning IsSound _ (λ c h.
      (if-Guards IsRunning IsSound (not c.finished) (λ _. to_tunnel-Guards api answers)
          (λ _. done-Guards IsRunning IsSound tt)).guards
        c h)

  move_bytes-Guards : Guards Running Sound (move_bytes api answers)
  unfolding move_bytes
  move_bytes-Guards = and_then-Guards Running Sound start_relay-Guards (λ _.
      and_then-Guards Running Sound (on_relay-Guards (from_tunnel-Guards api answers)) (λ _.
        and_then-Guards Running Sound take_host_chunk-Guards (λ _.
          and_then-Guards Running Sound (on_relay-Guards write_pending-Guards)
            (λ _. on_relay-Guards (end_host-Guards api answers)))))

  finish_relay-Guards :
      (rounds : List ReaderRound) → Guards Running Sound (finish_relay api answers rounds)
  unfolding finish_relay
  finish_relay-Guards rounds = reading-Guards Running Sound _ (λ c h.
      (if-Guards Running Sound (c.replied && c.is_reading)
          (λ _. on_relay-Guards (
            and_then-Guards IsRunning IsSound
              (step-Guards IsRunning IsSound _ (λ r k. reader_rounds-IsRunning rounds r k))
              (λ _. step-Guards IsRunning IsSound _ (λ r k.
                if-Kept IsRunning IsSound
                  ((r.tunnel.is_eof && r.host_read.eof)
                    && (no_chunks r.host_read.chunks && is_sent r))
                  _ _ (λ _. with_finished true r k) (λ _. k)))))
          (λ _. done-Guards Running Sound tt)).guards
        c h)

  service_body-Guards :
      (rounds : List ReaderRound) → Guards Running Sound (service_body api answers rounds)
  unfolding service_body
  service_body-Guards rounds =
      and_then-Guards Running Sound
        (reading-Guards Running Sound _ (λ c h.
          (if-Guards Running Sound c.relay.tunnel.is_failed (λ _. refuse-Guards)
              (λ _.
                if-Guards Running Sound c.relay.tunnel.is_connected (λ _. move_bytes-Guards)
                  (λ _. done-Guards Running Sound tt))).guards
            c h))
        (λ _. finish_relay-Guards rounds)

  finish-IsSound : (c : Connection) → IsSound c → IsSound (record c { finished = true })
  finish-IsSound c h = record { forth = h.forth; back = h.back; ended = h.ended }

  -- What the relay keeps behind the try, and behind the close.
  caught :
      (r : Result (Unit {0}) × SocksConnection)
      → Kept Running Sound r
      → IsRelay ((catch_all api answers r).relay)
  caught (ok _, c) h = record { sound = running-IsSound c.relay h; running = λ _. h }
  caught (err e, c) h = record { sound = finish-IsSound c.relay h; running = λ f. absurd (cc) }

  closed-IsRelay :
      (c : SocksConnection) → IsRelay c.relay → IsRelay ((close_finished api answers c).relay)
  unfolding close_finished
  closed-IsRelay c h =
      if-holds (λ (d : SocksConnection). IsRelay d.relay) c.relay.finished
        (λ _. record {
          sound = close_both-IsSound api answers c.relay h.sound;
          running = λ k. absurd (cc (close_both-finished api answers c.relay));
        })
        (λ _. h)

  service-IsRelay :
      (rounds : List ReaderRound) (c : SocksConnection)
      → IsRelay c.relay
      → IsRelay ((service api answers rounds c).relay)
  unfolding service
  service-IsRelay rounds c h =
      if-holds (λ (d : SocksConnection). IsRelay d.relay) c.relay.finished (λ _. h)
        (λ f. closed-IsRelay _ (
          caught (service_body api answers rounds c)
            ((service_body-Guards rounds).guards c (h.running f))))

  -- One step of a connection: its reader's thread, once there is one, lwIP, or a poll of the proxy.
  pub data SocksStep : SocksConnection → SocksConnection → Type 0 where
    reads :
        (round : ReaderRound) {c : SocksConnection}
        → c.is_reading ≡ true
        → SocksStep c (record c { relay = reader_round round c.relay })
    calls_back :
        (callback : Callback) {c : SocksConnection}
        → SocksStep c
            (record c { relay = record c.relay { tunnel = called_back callback c.relay.tunnel } })
    services :
        (rounds : List ReaderRound) {c : SocksConnection}
        → SocksStep c (service api answers rounds c)

  pub data SocksReached : SocksConnection → Type 0 where
    starts : {s : TcpStream} → Waiting s → SocksReached (new_socks s)
    goes_on : {c c' : SocksConnection} → SocksReached c → SocksStep c c' → SocksReached c'

  -- Whatever the reader of the host, lwIP and the polls do, and in whichever order: of a connection
  -- of the SOCKS proxy, the bytes sent to the tunnel are a beginning of those read of the host
  -- behind the handshake, and the bytes written to the host but for replies a beginning of those
  -- that lwIP delivered; while it is not finished, the rest is queued, in order; and once writing
  -- to the tunnel has ended, the host has ended and every byte of it was sent.
  pub SocksReached-IsRelay : {c : SocksConnection} → SocksReached c → IsRelay c.relay
  SocksReached-IsRelay (starts waiting) = record {
    sound = running-IsSound _ (new-IsRunning waiting);
    running = λ _. new-IsRunning waiting;
  }
  SocksReached-IsRelay (goes_on {c} reached (reads round there)) =
      reads-IsRelay round c.relay (SocksReached-IsRelay reached)
  SocksReached-IsRelay (goes_on {c} reached (calls_back callback)) =
      calls_back-IsRelay callback c.relay (SocksReached-IsRelay reached)
  SocksReached-IsRelay (goes_on {c} reached (services rounds)) =
      service-IsRelay rounds c (SocksReached-IsRelay reached)
