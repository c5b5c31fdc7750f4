-- ===== src/Relay/Served/Ports.antt =====
-- The constructor of ServedTcpPorts of src/port_forward.cpp.
use mathlib.Core.List.{Perm}
use mathlib.Core.List.Perm
use tailcat_in_c.Common.{
  ℕ, ◌<◌, ◌≤◌, leb, ◌==◌, ◌≡◌, ◌≢◌, refl, ap, false, ◌||◌, List, [], ◌∷◌, map, Option, none, some,
  if-holds, Result, ok, throw_if-ok, >>=-ok, ok-injective, subst, arith,
}
use tailcat_in_c.Relay.Served.{
  ServedTcpMapping, ServedTcpPorts, Listener, insert_mapping, sort_mappings, is_repeated,
  listen_all, is_none, serve_ports,
}

insert_mapping-Perm :
    (new : ServedTcpMapping) (mappings : List ServedTcpMapping)
    → Perm (insert_mapping new mappings) (new ∷ mappings)
insert_mapping-Perm new [] = Perm.refl _
insert_mapping-Perm new (mapping ∷ mappings) =
    if-holds (λ l. Perm l (new ∷ mapping ∷ mappings)) (leb new.tailcat_port mapping.tailcat_port)
      (λ _. Perm.refl _)
      (λ _. Perm.trans (Perm.cons mapping (insert_mapping-Perm new mappings)) (Perm.swap _ _ _))

sort_mappings-Perm : (mappings : List ServedTcpMapping) → Perm (sort_mappings mappings) mappings
unfolding sort_mappings
sort_mappings-Perm [] = Perm.refl _
sort_mappings-Perm (mapping ∷ mappings) =
    Perm.trans (insert_mapping-Perm mapping (sort_mappings mappings))
      (Perm.cons mapping (sort_mappings-Perm mappings))

-- The order of the mappings behind the sort: from `low` on, by their port.
abbrev IsAscending : ℕ → List ServedTcpMapping → Type 0
IsAscending low [] = Unit
IsAscending low (mapping ∷ mappings) =
    (low ≤ mapping.tailcat_port) × IsAscending mapping.tailcat_port mappings

-- Above `low`, every port once, and no host port 0.
abbrev pub IsServed : ℕ → List ServedTcpMapping → Type 0
IsServed low [] = Unit
IsServed low (mapping ∷ mappings) =
    (low < mapping.tailcat_port) × (mapping.host_port ≢ 0) × IsServed mapping.tailcat_port mappings

insert_mapping-IsAscending :
    (low : ℕ) (new : ServedTcpMapping) (mappings : List ServedTcpMapping)
    → low ≤ new.tailcat_port
    → IsAscending low mappings
    → IsAscending low (insert_mapping new mappings)
insert_mapping-IsAscending low new [] h a = (h, tt)
insert_mapping-IsAscending low new (mapping ∷ mappings) h a =
    if-holds (IsAscending low) (leb new.tailcat_port mapping.tailcat_port)
      (λ e. (h, (ground arith, a.1)))
      (λ e. (a.0, insert_mapping-IsAscending mapping.tailcat_port new mappings (ground arith) a.1))

sort_mappings-IsAscending :
    (mappings : List ServedTcpMapping) → IsAscending 0 (sort_mappings mappings)
unfolding sort_mappings
sort_mappings-IsAscending [] = tt
sort_mappings-IsAscending (mapping ∷ mappings) =
    insert_mapping-IsAscending 0 mapping (sort_mappings mappings) (omega arith)
      (sort_mappings-IsAscending mappings)

abbrev low_of : Option ℕ → ℕ
low_of none = 0
low_of (some before) = before

module _ (listen : ℕ → Result (Unit {0})) where
  above :
      (before : Option ℕ) (port host : ℕ)
      → low_of before ≤ port
      → (port == 0 || host == 0) ≡ false
      → is_repeated before port ≡ false
      → (low_of before < port) × (host ≢ 0)
  above none port host h z r = (ground arith, λ e. ground arith)
  above (some before) port host h z r = (ground arith, λ e. ground arith)

  -- What the loop makes of the mappings.
  abbrev Listens : List ServedTcpMapping → List Listener → Type 0
  Listens mappings listeners =
      (map (λ listener. listener.mapping) listeners ≡ mappings)
      × (map (λ listener. listener.mapping.tailcat_port) listeners
          ≡ map (λ mapping. mapping.tailcat_port) mappings)

  -- The mappings that the loop returns listeners for.
  listen_all-ok :
      (before : Option ℕ) (mappings : List ServedTcpMapping) (listeners : List Listener)
      → IsAscending (low_of before) mappings
      → listen_all listen before mappings ≡ ok listeners
      → IsServed (low_of before) mappings × Listens mappings listeners
  unfolding listen_all
  listen_all-ok before [] listeners a e = (tt, subst (Listens []) (ok-injective e) (refl, refl))
  listen_all-ok before (mapping ∷ mappings) listeners a e =
      let zero_ports = throw_if-ok (mapping.tailcat_port == 0 || mapping.host_port == 0) _ e in
      let repeated = throw_if-ok (is_repeated before mapping.tailcat_port) _ zero_ports.1 in
      let listens = >>=-ok (listen mapping.tailcat_port) repeated.1 in
      let rest = >>=-ok (listen_all listen (some mapping.tailcat_port) mappings) listens.2 in
      let ports = above before mapping.tailcat_port mapping.host_port a.0 zero_ports.0 repeated.0 in
      let more = listen_all-ok (some mapping.tailcat_port) mappings rest.0 a.1 rest.1 in
      (
        (ports.0, ports.1, more.0),
        subst (Listens (mapping ∷ mappings)) (ok-injective rest.2)
            (ap (λ l. mapping ∷ l) more.1.0, ap (λ l. mapping.tailcat_port ∷ l) more.1.1),
      )

  -- What the constructor leaves of the mappings.
  abbrev pub Serves : List ServedTcpMapping → ServedTcpPorts → Type 0
  Serves mappings s =
      Perm s.served_mappings mappings
      × IsServed 0 s.served_mappings
      × (map (λ listener. listener.mapping) s.listeners ≡ s.served_mappings)
      × (s.exposed_ports ≡ map (λ mapping. mapping.tailcat_port) s.served_mappings)

  -- If the constructor of the served ports returns, the mappings are those given, in ascending
  -- order of their ports, every port once and none of the ports 0; there is a listener for each
  -- mapping in that order, and the exposed ports are theirs.
  pub serve_ports-Serves :
      (mappings : List ServedTcpMapping) (s : ServedTcpPorts)
      → serve_ports listen mappings ≡ ok s
      → Serves mappings s
  unfolding serve_ports
  serve_ports-Serves mappings s e =
      let some_port = throw_if-ok (is_none mappings) _ e in
      let rest = >>=-ok (listen_all listen none (sort_mappings mappings)) some_port.1 in
      let served =
        listen_all-ok none (sort_mappings mappings) rest.0 (sort_mappings-IsAscending mappings)
          rest.1 in
      subst (Serves mappings) (ok-injective rest.2)
        (sort_mappings-Perm mappings, served.0, served.1.0, served.1.1)

  no_zero :
      (before : Option ℕ) (port host : ℕ)
      → low_of before < port
      → host ≢ 0
      → (port == 0 || host == 0) ≡ false
  no_zero before port host h n = ground arith

  not_repeated :
      (before : Option ℕ) (port : ℕ) → low_of before < port → is_repeated before port ≡ false
  not_repeated none port h = refl
  not_repeated (some before) port h = ground arith

  listen_all-returns :
      ((port : ℕ) → listen port ≡ ok tt)
      → (before : Option ℕ) (mappings : List ServedTcpMapping) → IsServed (low_of before) mappings
      → (listeners : List Listener) × (listen_all listen before mappings ≡ ok listeners)
  unfolding listen_all
  listen_all-returns listens before [] h = ([], refl)
  listen_all-returns listens before (mapping ∷ mappings) h =
      let rest = listen_all-returns listens (some mapping.tailcat_port) mappings h.2 in
      rw
        (
          no_zero before mapping.tailcat_port mapping.host_port h.0 h.1,
          not_repeated before mapping.tailcat_port h.0,
          listens mapping.tailcat_port,
          rest.1,
        )
        (_, refl)

  -- If every port can be listened on, and the sorted mappings are some, with ascending ports, each
  -- once, and no port 0, the constructor of the served ports returns.
  pub serve_ports-returns :
      ((port : ℕ) → listen port ≡ ok tt)
      → (mappings : List ServedTcpMapping) → mappings ≢ []
      → IsServed 0 (sort_mappings mappings)
      → (s : ServedTcpPorts) × (serve_ports listen mappings ≡ ok s)
  unfolding serve_ports
  serve_ports-returns listens [] some_port h = absurd (some_port refl)
  serve_ports-returns listens (mapping ∷ mappings) some_port h =
      let rest = listen_all-returns listens none (sort_mappings (mapping ∷ mappings)) h in
      rw rest.1 (_, refl)
