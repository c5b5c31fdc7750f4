-- ===== src/Relay/Forwarded/Ports.antt =====
-- The constructor of LocalTcpForwarder of src/local_forward.cpp.
use tailcat_in_c.Common.{
  ℕ, ◌==◌, ◌≡◌, ◌≢◌, refl, subst, false, List, [], ◌∷◌, Bool-cases, inl, inr, Result, ok,
  throw_if-ok, >>=-ok, ok-injective, arith,
}
use tailcat_in_c.Relay.Forwarded.{
  TcpForwardMapping, Listener, LocalTcpForwarder, listen_all, bound_mapping, is_none, forward_ports,
}

-- What the constructor makes of the mappings, one by one.
abbrev pub Forwards : (List ℕ → Result ℕ) → List ℕ → List TcpForwardMapping → List Listener → Type 0
Forwards listen requested [] [] = Unit
Forwards listen requested [] (l ∷ listeners) = ⊥
Forwards listen requested (mapping ∷ mappings) [] = ⊥
Forwards listen requested (mapping ∷ mappings) (l ∷ listeners) =
    (mapping.remote_port ≢ 0)
    × (l.mapping.remote_port ≡ mapping.remote_port)
    × (mapping.local_port ≢ 0 → l.mapping.local_port ≡ mapping.local_port)
    × (mapping.local_port ≡ 0 → listen (0 ∷ requested) ≡ ok l.mapping.local_port)
    × Forwards listen (mapping.local_port ∷ requested) mappings listeners

module _ (listen : List ℕ → Result ℕ) where
  bound_mapping_lem :
      (port : ℕ) (requested : List ℕ) (mapping : TcpForwardMapping)
      → listen (mapping.local_port ∷ requested) ≡ ok port
      → ((bound_mapping port mapping).remote_port ≡ mapping.remote_port)
        × (mapping.local_port ≢ 0 → (bound_mapping port mapping).local_port ≡ mapping.local_port)
        × (mapping.local_port ≡ 0
            → listen (0 ∷ requested) ≡ ok (bound_mapping port mapping).local_port)
  unfolding bound_mapping
  bound_mapping_lem port requested mapping bound = elim (Bool-cases (mapping.local_port == 0)) [
    | inl z ↦ rw z (refl, (λ n. absurd (ground arith)), (λ e. rw⁻¹ e bound))
    | inr n ↦ rw n (refl, (λ _. refl), (λ e. absurd (ground arith)))
  ]

  listen_all-Forwards :
      (requested : List ℕ) (mappings : List TcpForwardMapping) (listeners : List Listener)
      → listen_all listen requested mappings ≡ ok listeners
      → Forwards listen requested mappings listeners
  unfolding listen_all
  listen_all-Forwards requested [] listeners e =
      subst (Forwards listen requested []) (ok-injective e) tt
  listen_all-Forwards requested (mapping ∷ mappings) listeners e =
      let more_requested = mapping.local_port ∷ requested in
      let nonzero = throw_if-ok (mapping.remote_port == 0) _ e in
      let listens = >>=-ok (listen more_requested) nonzero.1 in
      let rest = >>=-ok (listen_all listen more_requested mappings) listens.2 in
      let kept = bound_mapping_lem listens.0 requested mapping listens.1 in
      let more = listen_all-Forwards more_requested mappings rest.0 rest.1 in
      subst (Forwards listen requested (mapping ∷ mappings)) (ok-injective rest.2)
        ((λ z. ground arith), kept.0, kept.1, kept.2, more)

  nonempty : (mappings : List TcpForwardMapping) → is_none mappings ≡ false → mappings ≢ []
  nonempty [] h e = absurd (cc)
  nonempty (mapping ∷ mappings) h e = cc

  -- If the constructor of the forwarder returns, there were mappings, none with the remote port 0,
  -- and there is a listener for each in their order: to the same remote port, on the local port
  -- given, or, where that is 0, on the one that the system bound for it, behind the requests of the
  -- mappings before; and there is no connection.
  pub forward_ports-Forwards :
      (mappings : List TcpForwardMapping) (s : LocalTcpForwarder)
      → forward_ports listen mappings ≡ ok s
      → (mappings ≢ []) × Forwards listen [] mappings s.listeners × (s.connections ≡ [])
  unfolding forward_ports
  forward_ports-Forwards mappings s e =
      let some_port = throw_if-ok (is_none mappings) _ e in
      let rest = >>=-ok (listen_all listen [] mappings) some_port.1 in
      let served = listen_all-Forwards [] mappings rest.0 rest.1 in
      subst
        (λ (s : LocalTcpForwarder).
          (mappings ≢ []) × Forwards listen [] mappings s.listeners × (s.connections ≡ []))
        (ok-injective rest.2) (nonempty mappings some_port.0, served, refl)
