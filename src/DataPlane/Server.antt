-- ===== src/DataPlane/Server.antt =====
-- TailcatServerDataPlane of src/data_plane.cpp.
pub mod Invariant
pub mod Operations
pub mod Behaviour
use tailcat_in_c.Common.{
  ℕ, ◌≤◌, Bool, true, false, ◌&&◌, ◌||◌, not, List, [], ◌∷◌, ◌++◌, Option, none, some, Bytes, empty,
  length, get_or, take, drop, ltb, leb, shr, ◌==◌, if◌then◌else◌, Error, Result, ok, err,
  runtime_error, invalid_argument, Run, done, throw, step, reading, and_then, ByteMap, find,
  emplace, update,
}
use tailcat_in_c.Protocol.Types.{Key32, zero_key}
use tailcat_in_c.Protocol.Cbor.Int64.{ℤ, pos, negsuc}
use tailcat_in_c.Protocol.Meow.{
  encode_meowed, is_meow_packet, is_meowed_packet, parse_meow_ping, tailcat_ip_for_node,
}
use tailcat_in_c.Derp.FrameType
use tailcat_in_c.Derp.Frame.{DerpFrame}
use tailcat_in_c.Derp.Client.{parse_derp_recv_packet}
use tailcat_in_c.Derp.Transport.{Call, DerpTransport, send_packet, send_pong, receive_for}
use tailcat_in_c.DataPlane.Parts.{
  WireGuardPeerEngine, WireGuardPacketResult, Activity, returns, throws, outputs, LwIp, input_ip,
}

pub record Peer (W : Type 0) : Type 0 where
  pub node_public : Key32
  pub disco_public : Key32
  pub address : Bytes
  pub wireguard : W

-- A `Peer*` of `peers_by_ip` is the key under which `peers` owns the peer: no peer is ever removed.
-- `calls` are the calls of the transport so far.
pub record Server (W K : Type 0) : Type 0 where
  pub peers : ByteMap (Peer W)
  pub peers_by_ip : ByteMap Key32
  pub stack : K
  pub calls : List Call

-- `allow && !allow(source)`
abbrev pub refused : Option (Key32 → Bool) → Key32 → Bool
refused none source = false
refused (some admits) source = not (admits source)

module _ {W K : Type 0} (transport : DerpTransport) (engine : WireGuardPeerEngine W) (lwip : LwIp K)
    (allow : Option (Key32 → Bool)) (psk : Option Key32) where
  -- A call of the transport.
  unfoldable pub call : {A : Type 0} → (List Call → Result A) → Call → Run (Server W K) A
  call answer c s = (answer (c ∷ s.calls), record s { calls = c ∷ s.calls })

  -- An operation of the engine of the peer under `node`.
  abbrev pub set_wireguard : Key32 → W → Server W K → Server W K
  set_wireguard node w s = record s {
    peers = update node (λ peer. record peer { wireguard = w }) s.peers;
  }

  unfoldable pub peer_for : Key32 → Server W K → Option (Peer W)
  peer_for node s = find node s.peers

  unfoldable pub insert_peer : Key32 → Key32 → Result W → Run (Server W K) (Unit {0})
  insert_peer node disco (err e) s = (err e, s)
  insert_peer node disco (ok w) s = (
    ok tt,
    record s {
      peers_by_ip = emplace (tailcat_ip_for_node node) node s.peers_by_ip;
      peers =
          emplace node
            (record {
              node_public = node;
              disco_public = disco;
              address = tailcat_ip_for_node node;
              wireguard = w;
            })
            s.peers;
    },
  )

  unfoldable pub add_peer : Key32 → Key32 → Run (Server W K) (Unit {0})
  unfolding peer_for
  add_peer node disco s = existing (peer_for node s)
    where
      existing : Option (Peer W) → Result (Unit {0}) × Server W K
      existing (some _) = (
        ok tt,
        record s { peers = update node (λ peer. record peer { disco_public = disco }) s.peers },
      )
      existing none = insert_peer node disco (engine.create node psk) s

  -- The packet encrypted for a peer that was found, and sent.
  unfoldable pub send_to_peer : Bytes → Key32 → Option (Peer W) → Run (Server W K) (Unit {0})
  send_to_peer packet node none = done tt
  send_to_peer packet node (some peer) =
      if not (engine.session_established peer.wireguard)
      then done tt
      else and_then
          (step (λ s.
            let (sealed, w) = engine.encrypt_ip_packet packet peer.wireguard in
            (sealed, set_wireguard node w s)))
          (λ sealed. call transport.sends (send_packet peer.node_public sealed))

  unfoldable pub route : Bytes → Option Key32 → Run (Server W K) (Unit {0})
  route packet none = done tt
  route packet (some node) = reading (λ s. send_to_peer packet node (find node s.peers))

  unfoldable pub send_ip : Bytes → Run (Server W K) (Unit {0})
  send_ip packet =
      if ltb (length packet) 40 || not (shr (get_or packet 0 0) 4 == 6)
      then done tt
      else reading (λ s. route packet (find (take 16 (drop 24 packet)) s.peers_by_ip))

  -- lwIP at work. The output callback catches every exception of `send_ip` and reports it to lwIP.
  abbrev pub succeeded : {A : Type 0} → Result A → Bool
  succeeded (ok _) = true
  succeeded (err _) = false

  unfoldable pub run_stack : Activity K → Run (Server W K) (Unit {0})
  run_stack (returns k) s = (ok tt, record s { stack = k })
  run_stack (throws e k) s = (err e, record s { stack = k })
  run_stack (outputs packet next) s =
      let (sent, s') = send_ip packet s in run_stack (next (succeeded sent)) s'

  unfoldable pub stack_input_ip : Bytes → Run (Server W K) (Unit {0})
  stack_input_ip packet s = run_stack (input_ip lwip packet s.stack) s

  unfoldable pub stack_poll : Run (Server W K) (Unit {0})
  stack_poll s = run_stack (lwip.check_timeouts s.stack) s

  -- A MEOW packet, whose `embedded_node` is not trusted.
  unfoldable pub handle_meow : Key32 → Bytes → Run (Server W K) Bool
  handle_meow source packet =
      let (parsed, embedded_node, disco) = parse_meow_ping packet zero_key zero_key in
      if not parsed
      then done true
      else if refused allow source
      then done true
      else and_then (add_peer source disco)
          (λ _. and_then (call transport.sends (send_packet source encode_meowed)) (λ _. done true))

  unfoldable pub send_outbound : Key32 → Bytes → Run (Server W K) (Unit {0})
  send_outbound source outbound =
      if empty outbound then done tt else call transport.sends (send_packet source outbound)

  unfoldable pub deliver : Option Bytes → Run (Server W K) (Unit {0})
  deliver none = done tt
  deliver (some plaintext) = stack_input_ip plaintext

  unfoldable pub handle_wireguard : Key32 → Bytes → Option (Peer W) → Run (Server W K) Bool
  handle_wireguard source packet none = done true
  handle_wireguard source packet (some peer) =
      let (result, w) = engine.handle_packet packet peer.wireguard in
      and_then (step (λ s. (ok tt, set_wireguard source w s))) (λ _.
        and_then (send_outbound source result.outbound)
          (λ _. and_then (deliver result.plaintext_ip) (λ _. done true)))

  unfoldable pub handle_packet : Key32 → Bytes → Run (Server W K) Bool
  unfolding peer_for
  handle_packet source packet =
      if is_meowed_packet packet
      then done true
      else if is_meow_packet packet
      then handle_meow source packet
      else reading (λ s. handle_wireguard source packet (peer_for source s))

  unfoldable pub handle_frame : DerpFrame → Run (Server W K) Bool
  handle_frame frame =
      if frame.type == FrameType.ping
      then and_then
          (if length frame.payload == 8
            then call transport.sends (send_pong frame.payload)
            else done tt)
          (λ _. done true)
      else if not (frame.type == FrameType.recv_packet)
      then done true
      else (let (taken, source, packet) = parse_derp_recv_packet frame.payload zero_key [] in
          if not taken
          then throw (runtime_error "malformed DERP RecvPacket frame")
          else handle_packet source packet)

  unfoldable pub handle_received : Option DerpFrame → Run (Server W K) Bool
  handle_received none = and_then stack_poll (λ _. done false)
  handle_received (some frame) =
      and_then (handle_frame frame) (λ handled. and_then stack_poll (λ _. done handled))

  unfoldable pub pump_for : ℤ → Run (Server W K) Bool
  pump_for (negsuc _) = throw (invalid_argument "negative Tailcat pump timeout")
  pump_for (pos timeout) = and_then (call transport.receives (receive_for timeout)) handle_received
