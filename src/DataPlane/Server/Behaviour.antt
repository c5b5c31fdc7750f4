-- ===== src/DataPlane/Server/Behaviour.antt =====
-- What TailcatServerDataPlane does with the frames and packets that it is given.
use tailcat_in_c.Common.{
  ◌≡◌, refl, Bool, true, false, ◌||◌, not, inl, inr, List, [], ◌∷◌, Option, none, some,
  Option-cases, Bool-cases, Bytes, length, ltb, shr, get_or, take, drop, ◌==◌, ok, Run, done, step,
  reading, and_then, find, update, find-Entries,
}
use tailcat_in_c.Protocol.Types.{Key32, zero_key}
use tailcat_in_c.Protocol.Cbor.Int64.{ℤ}
use tailcat_in_c.Protocol.Meow.{
  encode_meowed, is_meow_packet, is_meowed_packet, parse_meow_ping, tailcat_ip_for_node,
}
use tailcat_in_c.Derp.Transport.{Call, DerpTransport, send_packet}
use tailcat_in_c.DataPlane.Parts.{WireGuardPeerEngine, LwIp}
use tailcat_in_c.DataPlane.Server.{
  Peer, Server, refused, call, peer_for, add_peer, send_to_peer, route, send_ip, handle_meow,
  handle_wireguard, handle_packet, pump_for,
}
use tailcat_in_c.Common.{◌⊎◌, sym, ap, ◌∙◌, present-find, Result-cases, find-update}
use tailcat_in_c.DataPlane.Server.Invariant.{IsPeer, IsRoute, IsSafe}
use tailcat_in_c.DataPlane.Server.Operations.{pump_for-IsSafe}

-- A server before its first pump.
abbrev pub new_server : {W K : Type 0} → K → Server W K
new_server k = record { peers = []; peers_by_ip = []; stack = k; calls = [] }

module _ {W K : Type 0} (transport : DerpTransport) (engine : WireGuardPeerEngine W) (lwip : LwIp K)
    (allow : Option (Key32 → Bool)) (psk : Option Key32) where
  -- One pump after the other, also behind an exception.
  unfoldable pub pump_all : List ℤ → Server W K → Server W K
  pump_all [] s = s
  pump_all (timeout ∷ timeouts) s =
      pump_all timeouts ((pump_for transport engine lwip allow psk timeout s).1)

  pump_all-keeps :
      (timeouts : List ℤ) (s : Server W K) → IsSafe allow s → IsSafe allow (pump_all timeouts s)
  unfolding pump_all
  pump_all-keeps [] s h = h
  pump_all-keeps (timeout ∷ timeouts) s h =
      pump_all-keeps timeouts _
        ((pump_for-IsSafe transport engine lwip allow psk timeout).keeps s h)

  -- However often a new server is pumped, and whatever the relay, WireGuard and lwIP do: every
  -- packet it sent went to a key that allow admits, every peer stands under its own admitted key
  -- with the address of that key, and every route leads from such an address to a peer that is
  -- there.
  pub pump_all-IsSafe :
      (timeouts : List ℤ) (k : K) → IsSafe allow (pump_all timeouts (new_server k))
  pump_all-IsSafe timeouts k =
      pump_all-keeps timeouts (new_server k)
        (record { each_peer = tt; each_route = tt; each_call = tt })

  -- A packet from a key that allow refuses and that is no peer changes nothing: handle_packet
  -- returns true with no peer added, no call of the transport, no input for lwIP, and no exception.
  pub handle_packet_refused :
      (source : Key32) (packet : Bytes) (s : Server W K)
      → refused allow source ≡ true
      → find source s.peers ≡ none
      → handle_packet transport engine lwip allow psk source packet s ≡ (ok true, s)
  unfolding handle_packet handle_meow handle_wireguard peer_for done reading
  handle_packet_refused source packet s barred unknown =
      elim (Bool-cases (is_meowed_packet packet)) [
        | inl e ↦ rw e
        | inr e ↦ rw e (elim (Bool-cases (is_meow_packet packet)) [
          | inl m ↦ rw m (elim (Bool-cases ((parse_meow_ping packet zero_key zero_key).0)) [
            | inl p ↦ rw (p, barred)
            | inr p ↦ rw p
          ])
          | inr m ↦ rw (m, unknown)
        ])
      ]

  -- A peer is added, and the ping answered.
  abbrev answer : Key32 → Key32 → Run (Server W K) Bool
  answer source disco = and_then (add_peer transport engine lwip allow psk source disco) (λ _.
      and_then
        (call transport engine lwip allow psk transport.sends (send_packet source encode_meowed))
        (λ _. done true))

  answer-known :
      (source disco : Key32) (s : Server W K) (peer : Peer W)
      → find source s.peers ≡ some peer
      → (answer source disco s).1 ≡ record s {
        peers = update source (λ p. record p { disco_public = disco }) s.peers;
        calls = send_packet source encode_meowed ∷ s.calls;
      }
  unfolding and_then add_peer peer_for call done
  answer-known source disco s peer known =
      rw known (elim (Result-cases (transport.sends (send_packet source encode_meowed ∷ s.calls))) [
        | inl (v, e) ↦ rw e
        | inr (x, e) ↦ rw e
      ])

  -- A ping of a known and admitted peer sets its disco key, leaves its WireGuard state alone, and
  -- is answered by MEOWED to the source of the packet, whatever node key the ping holds.
  handle_meow_again :
      (source embedded disco : Key32) (packet : Bytes) (s : Server W K) (peer : Peer W)
      → parse_meow_ping packet zero_key zero_key ≡ (true, embedded, disco)
      → refused allow source ≡ false
      → find source s.peers ≡ some peer
      → (find source ((handle_meow transport engine lwip allow psk source packet s).1).peers
          ≡ some (record peer { disco_public = disco }))
        × (((handle_meow transport engine lwip allow psk source packet s).1).calls
            ≡ send_packet source encode_meowed ∷ s.calls)
  unfolding handle_meow
  handle_meow_again source embedded disco packet s peer parsed admitted known =
      rw (parsed, admitted, answer-known source disco s peer known)
        (find-update source _ s.peers known, refl)

  -- What a run adds to the calls: nothing, or one packet to `node`.
  abbrev pub AtMostTo : (Key32 → Type 0) → List Call → List Call → Type 0
  AtMostTo P before after =
      (after ≡ before)
      ⊎ ((node : Key32) × (sealed : Bytes) × (after ≡ send_packet node sealed ∷ before) × P node)

  send_to_peer-calls :
      (packet : Bytes) (node : Key32) (peer : Peer W) (s : Server W K) (P : Key32 → Type 0)
      → P peer.node_public
      → AtMostTo P s.calls
          ((send_to_peer transport engine lwip allow psk packet node (some peer) s).1).calls
  unfolding send_to_peer and_then step call done
  send_to_peer-calls packet node peer s P h =
      elim (Bool-cases (engine.session_established peer.wireguard)) [
        | inl e ↦ rw e (elim (Result-cases ((engine.encrypt_ip_packet packet peer.wireguard).0)) [
          | inl (sealed, e') ↦ rw e' (inr (peer.node_public, sealed, refl, h))
          | inr (x, e') ↦ rw e' (inl refl)
        ])
        | inr e ↦ rw e (inl refl)
      ]

  -- In a server that satisfies the invariant, send_ip calls the transport not at all, or once, to
  -- send a packet to a node whose address is the destination of the IP packet.
  pub send_ip-routes :
      (packet : Bytes) (s : Server W K)
      → IsSafe allow s
      → AtMostTo
          (λ node. tailcat_ip_for_node node ≡ take 16 (drop 24 packet))
          s.calls
          ((send_ip transport engine lwip allow psk packet s).1).calls
  unfolding send_ip route reading done
  send_ip-routes packet s h =
      elim (Bool-cases (ltb (length packet) 40 || not (shr (get_or packet 0 0) 4 == 6))) [
        | inl e ↦ rw e (inl refl)
        | inr e ↦ rw e (elim (Option-cases (find (take 16 (drop 24 packet)) s.peers_by_ip)) [
          | inl none_found ↦ rw none_found (inl refl)
          | inr (node, found) ↦
              let (same, there) =
                find-Entries (IsRoute allow s.peers) (take 16 (drop 24 packet)) s.peers_by_ip
                  h.each_route found in
              let (peer, at_node) = present-find node s.peers there in
              let own = find-Entries (IsPeer allow) node s.peers h.each_peer at_node in
              rw (found, at_node)
                (send_to_peer-calls packet node peer s
                  (λ k. tailcat_ip_for_node k ≡ take 16 (drop 24 packet))
                  (ap tailcat_ip_for_node own.own_key ∙ sym same))
        ])
      ]
