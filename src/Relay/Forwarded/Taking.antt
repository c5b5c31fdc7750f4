-- ===== src/Relay/Forwarded/Taking.antt =====
-- What poll of src/local_forward.cpp does with the sockets that wait and with the connections.
use tailcat_in_c.Common.{
  ℕ, ◌≡◌, refl, sym, ap, ◌∙◌, false, true, not, List, [], ◌∷◌, ◌++◌, append-nil, append_assoc, map,
  empty, if-holds, Result, ok, err, Each, arith,
}
use tailcat_in_c.Lwip.{TcpApi, TcpStream}
use tailcat_in_c.Relay.{new_connection, HostApi, ReaderRound, forwarded}
use tailcat_in_c.Relay.Pool.{Serviced, service_all-Serviced}
use tailcat_in_c.Relay.Adoption.{
  Desk, nobody, connected, turned_away, Taken, nobody-Taken, Taken-append,
}
use tailcat_in_c.Relay.Forwarded.{
  Listener, LocalTcpForwarder, forward_connection, accept_sockets, accept_listeners, accept_new,
  poll_connections, poll,
}

abbrev pub without_sockets : Listener → Listener
without_sockets l = record l { sockets = [] }

-- The sockets that wait, in the order of the listeners, each with its port of the server.
abbrev pub sockets_of : ℕ → List ℕ → List (ℕ × ℕ)
sockets_of port names = map (λ name. (port, name)) names

abbrev pub waiting_sockets : List Listener → List (ℕ × ℕ)
waiting_sockets [] = []
waiting_sockets (l ∷ others) = sockets_of l.mapping.remote_port l.sockets ++ waiting_sockets others

abbrev pub desk : LocalTcpForwarder → Desk ℕ
desk s = record { asked = s.dialled; connections = s.connections; refused = s.refused }

abbrev HasNoError : Listener → Type 0
HasNoError l = empty l.error ≡ true

module _ (api : TcpApi) (answers : HostApi) (dial : List ℕ → Result TcpStream) where
  -- A socket becomes a connection with the stream that was dialled for it, or is closed.
  abbrev pub Dials : List (ℕ × ℕ) → Desk ℕ → Desk ℕ → Type 0
  Dials = Taken dial (λ name tunnel. new_connection tunnel) (λ name. name)

  record TakesSockets (waiting : List (ℕ × ℕ)) (s s' : LocalTcpForwarder) : Type 0 where
    taken : Dials waiting (desk s) (desk s')
    listeners : s'.listeners ≡ s.listeners

  TakesSockets-append :
      {xs ys : List (ℕ × ℕ)} {s s1 s2 : LocalTcpForwarder}
      → TakesSockets xs s s1
      → TakesSockets ys s1 s2
      → TakesSockets (xs ++ ys) s s2
  TakesSockets-append first later = record {
    taken = Taken-append dial _ _ first.taken later.taken;
    listeners = later.listeners ∙ first.listeners;
  }

  forward_connection-TakesSockets :
      (port name : ℕ) (r : Result TcpStream) (s : LocalTcpForwarder)
      → dial (port ∷ s.dialled) ≡ r
      → TakesSockets
          ((port, name) ∷ [])
          s
          (forward_connection api answers dial name r (record s { dialled = port ∷ s.dialled }))
  forward_connection-TakesSockets port name (ok tunnel) s e = record {
    taken = record {
      adopted = new_connection tunnel ∷ [];
      rejected = [];
      decided = connected port name tunnel e (nobody _);
      connections = refl;
      refused = refl;
    };
    listeners = refl;
  }
  forward_connection-TakesSockets port name (err x) s e = record {
    taken = record {
      adopted = [];
      rejected = name ∷ [];
      decided = turned_away port name x e (nobody _);
      connections = sym (append-nil s.connections);
      refused = refl;
    };
    listeners = refl;
  }

  accept_sockets-TakesSockets :
      (port : ℕ) (names : List ℕ) (s : LocalTcpForwarder)
      → TakesSockets (sockets_of port names) s (accept_sockets api answers dial port names s)
  unfolding accept_sockets
  accept_sockets-TakesSockets port [] s = record {
    taken = nobody-Taken _ _ _ (desk s);
    listeners = refl;
  }
  accept_sockets-TakesSockets port (name ∷ names) s =
      TakesSockets-append
        (forward_connection-TakesSockets port name (dial (port ∷ s.dialled)) s refl)
        (accept_sockets-TakesSockets port names _)

  -- No listener had an error: all sockets were taken, with `earlier` the listeners before.
  pub record AllTaken (earlier listeners : List Listener) (d : Desk ℕ) (s' : LocalTcpForwarder)
      : Type 0 where
    pub no_error : Each HasNoError listeners
    pub taken : Dials (waiting_sockets listeners) d (desk s')
    pub queues : s'.listeners ≡ earlier ++ map without_sockets listeners

  -- The first listener with an error: the sockets of those before it were taken, its own are dropped,
  -- and those of the others left alone.
  pub record Failed (earlier listeners : List Listener) (d : Desk ℕ) (s' : LocalTcpForwarder)
      : Type 0 where
    pub before : List Listener
    pub failed : Listener
    pub others : List Listener
    pub parts : listeners ≡ before ++ (failed ∷ others)
    pub no_error : Each HasNoError before
    pub error : empty failed.error ≡ false
    pub taken : Dials (waiting_sockets before) d (desk s')
    pub queues :
        s'.listeners ≡ earlier ++ (map without_sockets before ++ (without_sockets failed ∷ others))

  abbrev Accepts :
      List Listener → List Listener → Desk ℕ → Result (Unit {0}) × LocalTcpForwarder → Type 0
  Accepts earlier listeners d (ok _, s') = AllTaken earlier listeners d s'
  Accepts earlier listeners d (err _, s') = Failed earlier listeners d s'

  behind :
      (earlier : List Listener) (l : Listener) (others : List Listener) {listeners : List Listener}
      → listeners ≡ earlier ++ (without_sockets l ∷ [])
      → (listeners ++ others) ≡ earlier ++ (without_sockets l ∷ others)
  behind earlier l others e =
      ap (λ ls. ls ++ others) e ∙ append_assoc earlier (without_sockets l ∷ []) others

  -- What the listeners behind the first do, with the first.
  first-Accepts :
      (earlier : List Listener) (l : Listener) (others : List Listener) (s s1 : LocalTcpForwarder)
      (r : Result (Unit {0}) × LocalTcpForwarder)
      → HasNoError l
      → TakesSockets (sockets_of l.mapping.remote_port l.sockets) s s1
      → s.listeners ≡ earlier ++ (without_sockets l ∷ [])
      → Accepts s1.listeners others (desk s1) r
      → Accepts earlier (l ∷ others) (desk s) r
  first-Accepts earlier l others s s1 (ok _, s') e h p k = record {
    no_error = (e, k.no_error);
    taken = Taken-append dial _ _ h.taken k.taken;
    queues = k.queues ∙ behind earlier l _ (h.listeners ∙ p);
  }
  first-Accepts earlier l others s s1 (err _, s') e h p k = record {
    before = l ∷ k.before;
    failed = k.failed;
    others = k.others;
    parts = ap (λ ls. l ∷ ls) k.parts;
    no_error = (e, k.no_error);
    error = k.error;
    taken = Taken-append dial _ _ h.taken k.taken;
    queues = k.queues ∙ behind earlier l _ (h.listeners ∙ p);
  }

  accept_listeners-Accepts :
      (listeners : List Listener) (s : LocalTcpForwarder)
      → Accepts s.listeners listeners (desk s) (accept_listeners api answers dial listeners s)
  unfolding accept_listeners
  accept_listeners-Accepts [] s = record {
    no_error = tt;
    taken = nobody-Taken _ _ _ (desk s);
    queues = sym (append-nil s.listeners);
  }
  accept_listeners-Accepts (l ∷ others) s =
      let s' = record s { listeners = s.listeners ++ (without_sockets l ∷ []) } in
      if-holds (Accepts s.listeners (l ∷ others) (desk s)) (not (empty l.error))
        (λ e. record {
          before = [];
          failed = l;
          others = others;
          parts = refl;
          no_error = tt;
          error = ground arith;
          taken = nobody-Taken _ _ _ (desk s);
          queues = append_assoc s.listeners (without_sockets l ∷ []) others;
        })
        (λ e.
          first-Accepts s.listeners l others s' _ _ (ground arith)
            (accept_sockets-TakesSockets l.mapping.remote_port l.sockets s') refl
            (accept_listeners-Accepts others
              (accept_sockets api answers dial l.mapping.remote_port l.sockets s')))

  -- What a poll makes of the forwarder: where it returns, all sockets that waited were taken and all
  -- connections were served; where it throws, what was taken up to the error is not served.
  abbrev pub Polls : LocalTcpForwarder → Result (Unit {0}) × LocalTcpForwarder → Type 0
  Polls s (ok _, s') =
      (s1 : LocalTcpForwarder) × AllTaken [] s.listeners (desk s) s1
      × Serviced api answers forwarded s1.connections s'.connections
      × (s'.listeners ≡ s1.listeners)
      × (s'.dialled ≡ s1.dialled)
      × (s'.refused ≡ s1.refused)
  Polls s (err _, s') = Failed [] s.listeners (desk s) s'

  poll_connections-Polls :
      (rounds : List (List ReaderRound)) (s : LocalTcpForwarder)
      (r : Result (Unit {0}) × LocalTcpForwarder)
      → Accepts [] s.listeners (desk s) r
      → Polls s (poll_connections api answers dial rounds r)
  poll_connections-Polls rounds s (ok _, s1) h =
      (s1, h, service_all-Serviced api answers forwarded rounds s1.connections, refl, refl, refl)
  poll_connections-Polls rounds s (err _, s1) h = h

  pub poll-Polls :
      (rounds : List (List ReaderRound)) (s : LocalTcpForwarder)
      → Polls s (poll api answers dial rounds s)
  unfolding poll accept_new
  poll-Polls rounds s =
      poll_connections-Polls rounds s _
        (accept_listeners-Accepts s.listeners (record s { listeners = [] }))
