-- ===== src/DataPlane/Server/Invariant.antt =====
-- What every operation of TailcatServerDataPlane keeps.
use tailcat_in_c.Common.{
  ℕ, ◌≡◌, refl, Bool, true, false, inl, inr, List, [], ◌∷◌, Option, Option-cases, Bytes, Result, ok,
  err, Maintains, ByteMap, find, emplace, update, present, Entries, Entries-map, emplace-Entries,
  update-Entries, present-update, present-emplace, present-emplace_same,
}
use tailcat_in_c.Protocol.Types.{Key32}
use tailcat_in_c.Protocol.Meow.{tailcat_ip_for_node}
use tailcat_in_c.Derp.Transport.{Call, DerpTransport, send_packet, send_pong, receive_for}
use tailcat_in_c.DataPlane.Parts.{WireGuardPeerEngine, LwIp}
use tailcat_in_c.DataPlane.Server.{
  Peer, Server, refused, call, set_wireguard, insert_peer, add_peer,
}

module _ (allow : Option (Key32 → Bool)) where
  -- Every packet that was sent went to a key that `allow` admits.
  abbrev pub Admitted : List Call → Type 0
  Admitted [] = Unit
  Admitted (send_packet node _ ∷ calls) = (refused allow node ≡ false) × Admitted calls
  Admitted (send_pong _ ∷ calls) = Admitted calls
  Admitted (receive_for _ ∷ calls) = Admitted calls

  -- A peer stands under its own key, which `allow` admits, and has the address of that key.
  pub record IsPeer {W : Type 0} (node : Key32) (peer : Peer W) : Type 0 where
    pub own_key : peer.node_public ≡ node
    pub admitted : refused allow node ≡ false
    pub own_address : peer.address ≡ tailcat_ip_for_node node

  -- A route leads from the address of a peer that is there to the key of that peer.
  abbrev pub IsRoute : {W : Type 0} → ByteMap (Peer W) → Bytes → Key32 → Type 0
  IsRoute peers ip node = (ip ≡ tailcat_ip_for_node node) × (present node peers ≡ true)

  pub record IsSafe {W K : Type 0} (s : Server W K) : Type 0 where
    pub each_peer : Entries IsPeer s.peers
    pub each_route : Entries (IsRoute s.peers) s.peers_by_ip
    pub each_call : Admitted s.calls

module _ {W K : Type 0} (transport : DerpTransport) (engine : WireGuardPeerEngine W) (lwip : LwIp K)
    (allow : Option (Key32 → Bool)) (psk : Option Key32) where
  abbrev Safe : Server W K → Type 0
  Safe = IsSafe allow

  -- A change of a peer that leaves its key and address alone.
  update-IsSafe :
      (node : Key32) (f : Peer W → Peer W) (s : Server W K)
      → ((peer : Peer W) → IsPeer allow node peer → IsPeer allow node (f peer))
      → Safe s
      → Safe (record s { peers = update node f s.peers })
  update-IsSafe node f s keep h = record {
    each_peer = update-Entries (IsPeer allow) node f s.peers keep h.each_peer;
    each_route =
        Entries-map (IsRoute allow s.peers) (IsRoute allow (update node f s.peers)) s.peers_by_ip
          (λ ip k (e, there). (e, rw (present-update k node f s.peers) there)) h.each_route;
    each_call = h.each_call;
  }

  pub set_wireguard-IsSafe :
      (node : Key32) (w : W) (s : Server W K)
      → Safe s
      → Safe (set_wireguard transport engine lwip allow psk node w s)
  set_wireguard-IsSafe node w s h =
      update-IsSafe node _ s
        (λ peer v. record {
          own_key = v.own_key;
          admitted = v.admitted;
          own_address = v.own_address;
        })
        h

  -- Calls of the transport.
  pub send_packet-IsSafe :
      (node : Key32) (packet : Bytes)
      → refused allow node ≡ false
      → Maintains Safe
          (call transport engine lwip allow psk transport.sends (send_packet node packet))
  unfolding call
  send_packet-IsSafe node packet admitted = record {
    keeps = λ s h. record {
      each_peer = h.each_peer;
      each_route = h.each_route;
      each_call = (admitted, h.each_call);
    };
  }

  pub send_pong-IsSafe :
      (value : Bytes)
      → Maintains Safe (call transport engine lwip allow psk transport.sends (send_pong value))
  unfolding call
  send_pong-IsSafe value = record {
    keeps = λ s h. record {
      each_peer = h.each_peer;
      each_route = h.each_route;
      each_call = h.each_call;
    };
  }

  pub receive_for-IsSafe :
      (timeout : ℕ)
      → Maintains Safe
          (call transport engine lwip allow psk transport.receives (receive_for timeout))
  unfolding call
  receive_for-IsSafe timeout = record {
    keeps = λ s h. record {
      each_peer = h.each_peer;
      each_route = h.each_route;
      each_call = h.each_call;
    };
  }

  -- A new peer comes with its route; the routes that were there stay good.
  insert_peer-IsSafe :
      (node disco : Key32) (r : Result W) (s : Server W K)
      → refused allow node ≡ false
      → Safe s
      → Safe ((insert_peer transport engine lwip allow psk node disco r s).1)
  unfolding insert_peer
  insert_peer-IsSafe node disco (err e) s admitted h = h
  insert_peer-IsSafe node disco (ok w) s admitted h = record {
    each_peer =
        emplace-Entries (IsPeer allow) node _ s.peers
          (record { own_key = refl; admitted = admitted; own_address = refl }) h.each_peer;
    each_route =
        emplace-Entries (IsRoute allow (emplace node new s.peers)) (tailcat_ip_for_node node) node
          s.peers_by_ip (refl, present-emplace_same node new s.peers)
          (Entries-map (IsRoute allow s.peers) (IsRoute allow (emplace node new s.peers))
            s.peers_by_ip (λ ip k (e, there). (e, present-emplace k node new s.peers there))
            h.each_route);
    each_call = h.each_call;
  }
    where
      new : Peer W
      new = record {
        node_public = node;
        disco_public = disco;
        address = tailcat_ip_for_node node;
        wireguard = w;
      }

  pub add_peer-IsSafe :
      (node disco : Key32)
      → refused allow node ≡ false
      → Maintains Safe (add_peer transport engine lwip allow psk node disco)
  unfolding add_peer
  add_peer-IsSafe node disco admitted = record {
    keeps = λ s h. elim (Option-cases (find node s.peers)) [
      | inl e ↦ rw e (insert_peer-IsSafe node disco (engine.create node psk) s admitted h)
      | inr (peer, e) ↦ rw e (
          update-IsSafe node _ s
            (λ peer v. record {
              own_key = v.own_key;
              admitted = v.admitted;
              own_address = v.own_address;
            })
            h)
    ];
  }
