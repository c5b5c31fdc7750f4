-- ===== src/DataPlane/Server/Operations.antt =====
-- Sending, lwIP, frames and pumps keep the invariant of the server data plane.
use tailcat_in_c.Common.{
  ◌≡◌, refl, Bool, true, false, ◌||◌, not, [], Option, none, some, Bytes, length, empty, ltb, shr,
  get_or, take, drop, ◌==◌, Maintains, done-Maintains, throw-Maintains, step-Maintains,
  reading-Maintains, if-Maintains, and_then-Maintains, find, find-Entries,
}
use tailcat_in_c.Protocol.Types.{Key32, zero_key}
use tailcat_in_c.Protocol.Cbor.Int64.{ℤ, pos, negsuc}
use tailcat_in_c.Protocol.Meow.{encode_meowed, is_meow_packet, is_meowed_packet, parse_meow_ping}
use tailcat_in_c.Derp.FrameType
use tailcat_in_c.Derp.Frame.{DerpFrame}
use tailcat_in_c.Derp.Client.{parse_derp_recv_packet}
use tailcat_in_c.Derp.Transport.{DerpTransport}
use tailcat_in_c.DataPlane.Parts.{
  WireGuardPeerEngine, Activity, returns, throws, outputs, LwIp, input_ip,
}
use tailcat_in_c.DataPlane.Server.{
  Peer, Server, refused, peer_for, send_to_peer, route, send_ip, succeeded, run_stack,
  stack_input_ip, stack_poll, handle_meow, send_outbound, deliver, handle_wireguard, handle_packet,
  handle_frame, handle_received, pump_for,
}
use tailcat_in_c.DataPlane.Server.Invariant.{
  IsPeer, IsSafe, set_wireguard-IsSafe, send_packet-IsSafe, send_pong-IsSafe, receive_for-IsSafe,
  add_peer-IsSafe,
}

module _ {W K : Type 0} (transport : DerpTransport) (engine : WireGuardPeerEngine W) (lwip : LwIp K)
    (allow : Option (Key32 → Bool)) (psk : Option Key32) where
  abbrev Safe : Server W K → Type 0
  Safe = IsSafe allow

  send_to_peer-IsSafe :
      (packet : Bytes) (node : Key32) (p : Option (Peer W))
      → ((peer : Peer W) → p ≡ some peer → IsPeer allow node peer)
      → Maintains Safe (send_to_peer transport engine lwip allow psk packet node p)
  unfolding send_to_peer
  send_to_peer-IsSafe packet node none v = done-Maintains Safe tt
  send_to_peer-IsSafe packet node (some peer) v =
      if-Maintains Safe (not (engine.session_established peer.wireguard))
        (λ _. done-Maintains Safe tt)
        (λ _.
          and_then-Maintains Safe
            (step-Maintains Safe _
              (λ s h. set_wireguard-IsSafe transport engine lwip allow psk node _ s h))
            (λ sealed.
              send_packet-IsSafe transport engine lwip allow psk peer.node_public sealed
                (rw ((v peer refl).own_key) ((v peer refl).admitted))))

  route-IsSafe :
      (packet : Bytes) (k : Option Key32)
      → Maintains Safe (route transport engine lwip allow psk packet k)
  unfolding route
  route-IsSafe packet none = done-Maintains Safe tt
  route-IsSafe packet (some node) = reading-Maintains Safe _ (λ s h.
      (send_to_peer-IsSafe packet node (find node s.peers)
          (λ peer e. find-Entries (IsPeer allow) node s.peers h.each_peer e)).keeps
        s h)

  pub send_ip-IsSafe :
      (packet : Bytes) → Maintains Safe (send_ip transport engine lwip allow psk packet)
  unfolding send_ip
  send_ip-IsSafe packet =
      if-Maintains Safe (ltb (length packet) 40 || not (shr (get_or packet 0 0) 4 == 6))
        (λ _. done-Maintains Safe tt)
        (λ _.
          reading-Maintains Safe _ (λ s h.
            (route-IsSafe packet (find (take 16 (drop 24 packet)) s.peers_by_ip)).keeps s h))

  -- Whatever lwIP does.
  run_stack-IsSafe :
      (a : Activity K) (s : Server W K)
      → Safe s
      → Safe ((run_stack transport engine lwip allow psk a s).1)
  unfolding run_stack
  run_stack-IsSafe (returns k) s h = record {
    each_peer = h.each_peer;
    each_route = h.each_route;
    each_call = h.each_call;
  }
  run_stack-IsSafe (throws e k) s h = record {
    each_peer = h.each_peer;
    each_route = h.each_route;
    each_call = h.each_call;
  }
  run_stack-IsSafe (outputs packet next) s h =
      run_stack-IsSafe
        (next (
          succeeded transport engine lwip allow psk
            ((send_ip transport engine lwip allow psk packet s).0)))
        _ ((send_ip-IsSafe packet).keeps s h)

  pub stack_poll-IsSafe : Maintains Safe (stack_poll transport engine lwip allow psk)
  unfolding stack_poll
  stack_poll-IsSafe = record { keeps = λ s h. run_stack-IsSafe (lwip.check_timeouts s.stack) s h }

  deliver-IsSafe : (p : Option Bytes) → Maintains Safe (deliver transport engine lwip allow psk p)
  unfolding deliver stack_input_ip
  deliver-IsSafe none = done-Maintains Safe tt
  deliver-IsSafe (some plaintext) = record {
    keeps = λ s h. run_stack-IsSafe (input_ip lwip plaintext s.stack) s h;
  }

  handle_meow-IsSafe :
      (source : Key32) (packet : Bytes)
      → Maintains Safe (handle_meow transport engine lwip allow psk source packet)
  unfolding handle_meow
  handle_meow-IsSafe source packet =
      if-Maintains Safe (not ((parse_meow_ping packet zero_key zero_key).0))
        (λ _. done-Maintains Safe true)
        (λ _.
          if-Maintains Safe (refused allow source) (λ _. done-Maintains Safe true)
            (λ admitted.
              and_then-Maintains Safe
                (add_peer-IsSafe transport engine lwip allow psk source _ admitted)
                (λ _.
                  and_then-Maintains Safe
                    (send_packet-IsSafe transport engine lwip allow psk source encode_meowed
                      admitted)
                    (λ _. done-Maintains Safe true))))

  send_outbound-IsSafe :
      (source : Key32) (outbound : Bytes)
      → refused allow source ≡ false
      → Maintains Safe (send_outbound transport engine lwip allow psk source outbound)
  unfolding send_outbound
  send_outbound-IsSafe source outbound admitted =
      if-Maintains Safe (empty outbound) (λ _. done-Maintains Safe tt)
        (λ _. send_packet-IsSafe transport engine lwip allow psk source outbound admitted)

  handle_wireguard-IsSafe :
      (source : Key32) (packet : Bytes) (p : Option (Peer W))
      → ((peer : Peer W) → p ≡ some peer → IsPeer allow source peer)
      → Maintains Safe (handle_wireguard transport engine lwip allow psk source packet p)
  unfolding handle_wireguard
  handle_wireguard-IsSafe source packet none v = done-Maintains Safe true
  handle_wireguard-IsSafe source packet (some peer) v =
      and_then-Maintains Safe
        (step-Maintains Safe _
          (λ s h. set_wireguard-IsSafe transport engine lwip allow psk source _ s h))
        (λ _.
          and_then-Maintains Safe (send_outbound-IsSafe source _ ((v peer refl).admitted))
            (λ _. and_then-Maintains Safe (deliver-IsSafe _) (λ _. done-Maintains Safe true)))

  handle_packet-IsSafe :
      (source : Key32) (packet : Bytes)
      → Maintains Safe (handle_packet transport engine lwip allow psk source packet)
  unfolding handle_packet peer_for
  handle_packet-IsSafe source packet =
      if-Maintains Safe (is_meowed_packet packet) (λ _. done-Maintains Safe true)
        (λ _.
          if-Maintains Safe (is_meow_packet packet) (λ _. handle_meow-IsSafe source packet)
            (λ _. reading-Maintains Safe _ (λ s h.
              (handle_wireguard-IsSafe source packet (find source s.peers)
                  (λ peer e. find-Entries (IsPeer allow) source s.peers h.each_peer e)).keeps
                s h)))

  -- A frame from the relay.
  pub handle_frame-IsSafe :
      (frame : DerpFrame) → Maintains Safe (handle_frame transport engine lwip allow psk frame)
  unfolding handle_frame
  handle_frame-IsSafe frame =
      if-Maintains Safe (frame.type == FrameType.ping)
        (λ _.
          and_then-Maintains Safe
            (if-Maintains Safe (length frame.payload == 8)
              (λ _. send_pong-IsSafe transport engine lwip allow psk frame.payload)
              (λ _. done-Maintains Safe tt))
            (λ _. done-Maintains Safe true))
        (λ _.
          if-Maintains Safe (not (frame.type == FrameType.recv_packet))
            (λ _. done-Maintains Safe true)
            (λ _.
              if-Maintains Safe (not ((parse_derp_recv_packet frame.payload zero_key []).0))
                (λ _. throw-Maintains Safe _) (λ _. handle_packet-IsSafe _ _)))

  handle_received-IsSafe :
      (frame : Option DerpFrame)
      → Maintains Safe (handle_received transport engine lwip allow psk frame)
  unfolding handle_received
  handle_received-IsSafe none =
      and_then-Maintains Safe stack_poll-IsSafe (λ _. done-Maintains Safe false)
  handle_received-IsSafe (some frame) =
      and_then-Maintains Safe (handle_frame-IsSafe frame)
        (λ handled. and_then-Maintains Safe stack_poll-IsSafe (λ _. done-Maintains Safe handled))

  pub pump_for-IsSafe :
      (timeout : ℤ) → Maintains Safe (pump_for transport engine lwip allow psk timeout)
  unfolding pump_for
  pump_for-IsSafe (negsuc _) = throw-Maintains Safe _
  pump_for-IsSafe (pos timeout) =
      and_then-Maintains Safe (receive_for-IsSafe transport engine lwip allow psk timeout)
        (λ frame. handle_received-IsSafe frame)
