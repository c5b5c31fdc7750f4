-- ===== src/Relay/Served/Taking.antt =====
-- What poll of src/port_forward.cpp does with the streams that wait and with the connections.
use tailcat_in_c.Common.{
  ℕ, ◌≡◌, refl, sym, ap, ◌∙◌, subst, List, [], ◌∷◌, ◌++◌, append-nil, map, Result, ok, err, Each,
}
use tailcat_in_c.Lwip.{TcpApi, TcpStream, close}
use tailcat_in_c.Relay.{new_connection, HostApi, ReaderRound, served}
use tailcat_in_c.Relay.Pool.{Serviced, service_all-Serviced}
use tailcat_in_c.Relay.Adoption.{
  Desk, nobody, connected, turned_away, Taken, nobody-Taken, Taken-append,
}
use tailcat_in_c.Relay.Served.{
  ServedTcpPorts, Listener, adopt, accept_streams, accept_listeners, accept_new, emptied, poll,
}

module _ (api : TcpApi) (answers : HostApi) (connect : List ℕ → Result (Unit {0})) where
  -- The streams that wait, in the order of the listeners, each with its port of the host.
  abbrev pub streams_of : ℕ → List TcpStream → List (ℕ × TcpStream)
  streams_of port tunnels = map (λ tunnel. (port, tunnel)) tunnels

  abbrev pub waiting_streams : List Listener → List (ℕ × TcpStream)
  waiting_streams [] = []
  waiting_streams (listening ∷ others) =
      streams_of listening.mapping.host_port listening.accepted ++ waiting_streams others

  abbrev pub desk : ServedTcpPorts → Desk TcpStream
  desk s = record { asked = s.connects; connections = s.connections; refused = s.refused }

  -- A stream becomes a connection with its host, or is closed.
  pub record TakesStreams (waiting : List (ℕ × TcpStream)) (s s' : ServedTcpPorts) : Type 0 where
    pub taken :
        Taken connect (λ tunnel _. new_connection tunnel) (close api) waiting (desk s) (desk s')
    pub listeners : s'.listeners ≡ s.listeners

  unchanged-TakesStreams : (s : ServedTcpPorts) → TakesStreams [] s s
  unchanged-TakesStreams s = record { taken = nobody-Taken _ _ _ (desk s); listeners = refl }

  TakesStreams-append :
      {xs ys : List (ℕ × TcpStream)} {s s1 s2 : ServedTcpPorts}
      → TakesStreams xs s s1
      → TakesStreams ys s1 s2
      → TakesStreams (xs ++ ys) s s2
  TakesStreams-append first later = record {
    taken =
        Taken-append connect (λ tunnel _. new_connection tunnel) (close api) first.taken
          later.taken;
    listeners = later.listeners ∙ first.listeners;
  }

  adopt-TakesStreams :
      (port : ℕ) (r : Result (Unit {0})) (tunnel : TcpStream) (s : ServedTcpPorts)
      → connect (port ∷ s.connects) ≡ r
      → TakesStreams
          ((port, tunnel) ∷ [])
          s
          (adopt api answers connect r tunnel (record s { connects = port ∷ s.connects }))
  adopt-TakesStreams port (ok u) tunnel s e = record {
    taken = record {
      adopted = new_connection tunnel ∷ [];
      rejected = [];
      decided = connected port tunnel u e (nobody _);
      connections = refl;
      refused = refl;
    };
    listeners = refl;
  }
  adopt-TakesStreams port (err x) tunnel s e = record {
    taken = record {
      adopted = [];
      rejected = tunnel ∷ [];
      decided = turned_away port tunnel x e (nobody _);
      connections = sym (append-nil s.connections);
      refused = refl;
    };
    listeners = refl;
  }

  accept_streams-TakesStreams :
      (port : ℕ) (tunnels : List TcpStream) (s : ServedTcpPorts)
      → TakesStreams (streams_of port tunnels) s (accept_streams api answers connect port tunnels s)
  unfolding accept_streams
  accept_streams-TakesStreams port [] s = unchanged-TakesStreams s
  accept_streams-TakesStreams port (tunnel ∷ tunnels) s =
      TakesStreams-append (adopt-TakesStreams port (connect (port ∷ s.connects)) tunnel s refl)
        (accept_streams-TakesStreams port tunnels _)

  accept_listeners-TakesStreams :
      (listeners : List Listener) (s : ServedTcpPorts)
      → TakesStreams
          (waiting_streams listeners)
          s
          (accept_listeners api answers connect listeners s)
  unfolding accept_listeners
  accept_listeners-TakesStreams [] s = unchanged-TakesStreams s
  accept_listeners-TakesStreams (listening ∷ others) s =
      TakesStreams-append
        (accept_streams-TakesStreams listening.mapping.host_port listening.accepted s)
        (accept_listeners-TakesStreams others _)

  -- What a poll makes of the served ports.
  pub record Polls (s s' : ServedTcpPorts) : Type 0 where
    pub open_desk : Desk TcpStream
    pub taken :
        Taken connect
          (λ tunnel _. new_connection tunnel)
          (close api)
          (waiting_streams s.listeners)
          (desk s)
          open_desk
    pub serviced : Serviced api answers served open_desk.connections s'.connections
    pub asked : s'.connects ≡ open_desk.asked
    pub refused : s'.refused ≡ open_desk.refused
    pub queues : Each (λ (listener : Listener). listener.accepted ≡ []) s'.listeners
    pub mappings :
        map (λ (listener : Listener). listener.mapping) s'.listeners
        ≡ map (λ (listener : Listener). listener.mapping) s.listeners

  emptied_lem :
      (listeners : List Listener)
      → Each
          (λ (listener : Listener). listener.accepted ≡ [])
          (map (emptied api answers connect) listeners)
        × (map
              (λ (listener : Listener). listener.mapping)
              (map (emptied api answers connect) listeners)
            ≡ map (λ (listener : Listener). listener.mapping) listeners)
  emptied_lem [] = (tt, refl)
  emptied_lem (listener ∷ listeners) =
      let rest = emptied_lem listeners in ((refl, rest.0), ap (λ ms. listener.mapping ∷ ms) rest.1)

  pub poll-Polls :
      (rounds : List (List ReaderRound)) (s : ServedTcpPorts)
      → Polls s (poll api answers connect rounds s)
  unfolding poll accept_new
  poll-Polls rounds s =
      let start = record s { listeners = map (emptied api answers connect) s.listeners } in
      let after = accept_listeners api answers connect s.listeners start in
      let accepted = accept_listeners-TakesStreams s.listeners start in
      let queues = emptied_lem s.listeners in
      record {
        open_desk = desk after;
        taken = accepted.taken;
        serviced = service_all-Serviced api answers served rounds after.connections;
        asked = refl;
        refused = refl;
        queues =
            subst (Each (λ (listener : Listener). listener.accepted ≡ [])) (sym accepted.listeners)
              queues.0;
        mappings =
            ap (map (λ (listener : Listener). listener.mapping)) accepted.listeners ∙ queues.1;
      }
