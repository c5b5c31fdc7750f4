-- ===== src/Relay/Served/Poll.antt =====
-- poll of ServedTcpPorts of src/port_forward.cpp.
use tailcat_in_c.Common.{ℕ, ◌≡◌, false, List, [], ◌∷◌, map, Result, ok, err, Each, Each-append}
use tailcat_in_c.Lwip.{TcpApi, TcpStream}
use tailcat_in_c.Relay.{Connection, HostApi, ReaderRound, served}
use tailcat_in_c.Relay.Delivery.{Waiting, Reached, starts}
use tailcat_in_c.Relay.Pool.{service_all-Reached, erase_finished-Each, Each-weaken}
use tailcat_in_c.Relay.Served.{
  ServedTcpPorts, Listener, adopt, accept_streams, accept_listeners, accept_new, emptied, poll,
}
use tailcat_in_c.Relay.Served.Taking.{Polls, poll-Polls}

module _ (api : TcpApi) (answers : HostApi) (connect : List ℕ → Result (Unit {0})) where
  -- The connections of a pool have come about by steps of the relay, and the streams that wait to be
  -- accepted have only been called back for.
  pub record IsPool (s : ServedTcpPorts) : Type 0 where
    pub waiting : Each (λ (listener : Listener). Each Waiting listener.accepted) s.listeners
    pub reached : Each (Reached api answers served) s.connections

  adopt-IsPool :
      (r : Result (Unit {0})) (tunnel : TcpStream) (s : ServedTcpPorts)
      → Waiting tunnel
      → IsPool s
      → IsPool (adopt api answers connect r tunnel s)
  adopt-IsPool (ok _) tunnel s w h = record {
    waiting = h.waiting;
    reached = Each-append _ s.connections _ h.reached (starts w, tt);
  }
  adopt-IsPool (err e) tunnel s w h = record { waiting = h.waiting; reached = h.reached }

  accept_streams-IsPool :
      (port : ℕ) (tunnels : List TcpStream) (s : ServedTcpPorts)
      → Each Waiting tunnels
      → IsPool s
      → IsPool (accept_streams api answers connect port tunnels s)
  unfolding accept_streams
  accept_streams-IsPool port [] s w h = h
  accept_streams-IsPool port (tunnel ∷ tunnels) s w h = accept_streams-IsPool port tunnels _ w.1 (
      adopt-IsPool (connect (port ∷ s.connects)) tunnel _ w.0
        (record { waiting = h.waiting; reached = h.reached }))

  accept_listeners-IsPool :
      (listeners : List Listener) (s : ServedTcpPorts)
      → Each (λ (listener : Listener). Each Waiting listener.accepted) listeners
      → IsPool s
      → IsPool (accept_listeners api answers connect listeners s)
  unfolding accept_listeners
  accept_listeners-IsPool [] s w h = h
  accept_listeners-IsPool (listening ∷ others) s w h =
      accept_listeners-IsPool others _ w.1
        (accept_streams-IsPool listening.mapping.host_port listening.accepted s w.0 h)

  emptied-waiting :
      (listeners : List Listener)
      → Each
          (λ (listener : Listener). Each Waiting listener.accepted)
          (map (emptied api answers connect) listeners)
  emptied-waiting [] = tt
  emptied-waiting (listener ∷ listeners) = (tt, emptied-waiting listeners)

  -- If every connection of the served ports has come about by steps of the relay, and the streams
  -- that wait have only been called back for, then after a poll it is so too, and no finished
  -- connection is left. Each stream that waited was asked for at the host once, in order, and
  -- became a connection where the host answered, and was closed where it did not; then each
  -- connection, old or new, was served once, and stays in its order unless it is finished; the
  -- queues are empty, and the listeners keep their mappings.
  pub poll-IsPool :
      (rounds : List (List ReaderRound)) (s : ServedTcpPorts)
      → IsPool s
      → IsPool (poll api answers connect rounds s)
        × Each
            (λ (c : Connection). c.finished ≡ false)
            (poll api answers connect rounds s).connections
        × Polls api answers connect s (poll api answers connect rounds s)
  unfolding poll accept_new
  poll-IsPool rounds s h =
      let accepted =
        accept_listeners-IsPool s.listeners
          (record s { listeners = map (emptied api answers connect) s.listeners }) h.waiting
          (record { waiting = emptied-waiting s.listeners; reached = h.reached }) in
      let kept =
        erase_finished-Each _ _
          (service_all-Reached api answers served rounds _ accepted.reached) in
      (
        record { waiting = accepted.waiting; reached = Each-weaken _ (λ c k. k.0) kept },
        Each-weaken _ (λ c k. k.1) kept,
        poll-Polls api answers connect rounds s,
      )
