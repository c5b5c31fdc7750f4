-- ===== src/Relay/Forwarded/Poll.antt =====
-- poll of LocalTcpForwarder of src/local_forward.cpp.
use tailcat_in_c.Common.{
  ℕ, ◌≡◌, refl, false, not, List, [], ◌∷◌, empty, if-holds, Result, ok, err, Each, Each-append,
}
use tailcat_in_c.Lwip.{TcpApi, TcpStream}
use tailcat_in_c.Relay.{Connection, HostApi, ReaderRound, forwarded}
use tailcat_in_c.Relay.Delivery.{Waiting, Reached, starts}
use tailcat_in_c.Relay.Pool.{service_all-Reached, erase_finished-Each, Each-weaken}
use tailcat_in_c.Relay.Forwarded.Taking.{Polls, poll-Polls}
use tailcat_in_c.Relay.Forwarded.{
  Listener, LocalTcpForwarder, forward_connection, accept_sockets, accept_listeners, accept_new,
  poll_connections, poll,
}

module _ (api : TcpApi) (answers : HostApi) (dial : List ℕ → Result TcpStream)
    (dials : (ports : List ℕ) (tunnel : TcpStream) → dial ports ≡ ok tunnel → Waiting tunnel) where
  abbrev pub AllReached : LocalTcpForwarder → Type 0
  AllReached s = Each (Reached api answers forwarded) s.connections

  forward_connection-Reached :
      (name : ℕ) (r : Result TcpStream) (s : LocalTcpForwarder)
      → ((tunnel : TcpStream) → r ≡ ok tunnel → Waiting tunnel)
      → AllReached s
      → AllReached (forward_connection api answers dial name r s)
  forward_connection-Reached name (ok tunnel) s w h =
      Each-append _ s.connections _ h (starts (w tunnel refl), tt)
  forward_connection-Reached name (err e) s w h = h

  accept_sockets-Reached :
      (port : ℕ) (names : List ℕ) (s : LocalTcpForwarder)
      → AllReached s
      → AllReached (accept_sockets api answers dial port names s)
  unfolding accept_sockets
  accept_sockets-Reached port [] s h = h
  accept_sockets-Reached port (name ∷ names) s h =
      accept_sockets-Reached port names _
        (forward_connection-Reached name (dial (port ∷ s.dialled)) _ (dials (port ∷ s.dialled)) h)

  accept_listeners-Reached :
      (listeners : List Listener) (s : LocalTcpForwarder)
      → AllReached s
      → AllReached ((accept_listeners api answers dial listeners s).1)
  unfolding accept_listeners
  accept_listeners-Reached [] s h = h
  accept_listeners-Reached (listening ∷ others) s h =
      if-holds (λ (r : Result (Unit {0}) × LocalTcpForwarder). AllReached (r.1))
        (not (empty listening.error)) (λ _. h)
        (λ _.
          accept_listeners-Reached others _
            (accept_sockets-Reached listening.mapping.remote_port listening.sockets _ h))

  -- What a poll leaves.
  abbrev pub Polled : Result (Unit {0}) × LocalTcpForwarder → Type 0
  Polled (ok _, s) = AllReached s × Each (λ (c : Connection). c.finished ≡ false) s.connections
  Polled (err e, s) = AllReached s

  poll_connections-Polled :
      (rounds : List (List ReaderRound)) (r : Result (Unit {0}) × LocalTcpForwarder)
      → AllReached (r.1)
      → Polled (poll_connections api answers dial rounds r)
  poll_connections-Polled rounds (ok _, s) h =
      let kept = erase_finished-Each _ _ (service_all-Reached api answers forwarded rounds _ h) in
      (Each-weaken _ (λ c k. k.0) kept, Each-weaken _ (λ c k. k.1) kept)
  poll_connections-Polled rounds (err e, s) h = h

  -- If dial answers streams that have only been called back for, and every connection of the
  -- forwarder has come about by steps of the relay, then after a poll it is so too; where the poll
  -- returns, no finished connection is left. Each socket that waited was dialled for once, in
  -- order, and became a connection with the stream dialled, or was closed where dial threw, and
  -- then each connection was served once, and stays in its order unless it is finished; where the
  -- poll throws, that was so for the listeners before the first that has an error, nothing was
  -- served, and the listeners behind it keep their sockets.
  pub poll-Polled :
      (rounds : List (List ReaderRound)) (s : LocalTcpForwarder)
      → AllReached s
      → Polled (poll api answers dial rounds s)
        × Polls api answers dial s (poll api answers dial rounds s)
  unfolding poll accept_new
  poll-Polled rounds s h = (
    poll_connections-Polled rounds _ (accept_listeners-Reached s.listeners _ h),
    poll-Polls api answers dial rounds s,
  )
