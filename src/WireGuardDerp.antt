-- ===== src/WireGuardDerp.antt =====
-- WireGuardDerpPeer of src/wireguard_derp.cpp: a WireGuard peer behind the relay.
pub mod Sends
use tailcat_in_c.Common.{
  ℕ, zero, suc, ◌+◌, ◌-◌, ◌*◌, ◌/◌, min, Bool, true, false, not, List, [], ◌∷◌, Option, none, some,
  Bytes, bytes_eq, empty, length, leb, ◌==◌, if◌then◌else◌, Error, Result, ok, err, runtime_error,
  invalid_argument, out_of_fuel, Run, done, throw, step, reading, and_then,
}
use tailcat_in_c.Protocol.Types.{Key32, zero_key}
use tailcat_in_c.Protocol.Cbor.Int64.{ℤ, pos, negsuc}
use tailcat_in_c.Derp.FrameType
use tailcat_in_c.Derp.Frame.{DerpFrame}
use tailcat_in_c.Derp.Client.{parse_derp_recv_packet}
use tailcat_in_c.Derp.Transport.{Call, DerpTransport, send_packet, send_pong, receive_for}
use tailcat_in_c.DataPlane.Parts.{WireGuardPeerEngine, WireGuardPacketResult}

-- The engine's state, the calls of the transport so far, and how often the clock was read.
pub record Tunnel (W : Type 0) : Type 0 where
  pub wireguard : W
  pub calls : List Call
  pub readings : ℕ

-- A time is in nanoseconds.
abbrev pub per_ms : ℕ
per_ms = 1000000

-- `clock n` is the n-th value of `Clock::now()`. A loop with a deadline runs for up to `rounds
-- deadline` rounds.
module _ {W : Type 0} (transport : DerpTransport) (engine : WireGuardPeerEngine W)
    (clock rounds : ℕ → ℕ) (peer_public : Key32) where
  unfoldable pub call : {A : Type 0} → (List Call → Result A) → Call → Run (Tunnel W) A
  call answer c t = (answer (c ∷ t.calls), record t { calls = c ∷ t.calls })

  unfoldable pub now : Run (Tunnel W) ℕ
  now t = (ok (clock t.readings), record t { readings = suc t.readings })

  -- Operations of the engine.
  unfoldable pub handle : Bytes → Run (Tunnel W) WireGuardPacketResult
  handle packet t =
      let (result, w) = engine.handle_packet packet t.wireguard in
      (ok result, record t { wireguard = w })

  unfoldable pub initiate : Run (Tunnel W) Bytes
  initiate t =
      let (message, w) = engine.create_handshake_initiation t.wireguard in
      (message, record t { wireguard = w })

  unfoldable pub encrypt : Bytes → Run (Tunnel W) Bytes
  encrypt packet t =
      let (sealed, w) = engine.encrypt_ip_packet packet t.wireguard in
      (sealed, record t { wireguard = w })

  unfoldable pub established : Run (Tunnel W) Bool
  established t = (ok (engine.session_established t.wireguard), t)

  unfoldable pub send_to_peer : Bytes → Run (Tunnel W) (Unit {0})
  send_to_peer packet = call transport.sends (send_packet peer_public packet)

  -- A packet from the peer: the answer is sent, and the plaintext is what the caller gets.
  unfoldable pub handle_packet : Bytes → Run (Tunnel W) (Bool × Option Bytes)
  handle_packet packet = and_then (handle packet) (λ result.
      and_then (if empty result.outbound then done tt else send_to_peer result.outbound)
        (λ _. done (true, result.plaintext_ip)))

  unfoldable pub handle_frame : Option DerpFrame → Run (Tunnel W) (Bool × Option Bytes)
  handle_frame none = done (false, none)
  handle_frame (some frame) =
      if frame.type == FrameType.ping
      then and_then
          (if length frame.payload == 8
            then call transport.sends (send_pong frame.payload)
            else done tt)
          (λ _. done (true, none))
      else if not (frame.type == FrameType.recv_packet)
      then done (true, none)
      else (let (taken, source, packet) = parse_derp_recv_packet frame.payload zero_key [] in
          if not taken
          then throw (runtime_error "malformed DERP RecvPacket frame")
          else if not (bytes_eq source peer_public)
          then done (true, none)
          else handle_packet packet)

  -- The result, and the plaintext, if there was one.
  unfoldable pub receive_one_for : ℕ → Run (Tunnel W) (Bool × Option Bytes)
  receive_one_for timeout =
      and_then (call transport.receives (receive_for timeout)) (λ frame. handle_frame frame)

  -- How long to wait: up to the next initiation or the deadline, and a millisecond at least.
  unfoldable pub wait_ms : ℕ → ℕ → ℕ → ℕ
  wait_ms next_send deadline t =
      let wait = (min next_send deadline - t) / per_ms in if wait == 0 then 1 else wait

  unfoldable pub initiate_if_due : ℕ → ℕ → Run (Tunnel W) ℕ
  initiate_if_due t next_send =
      if leb next_send t
      then and_then initiate
          (λ message. and_then (send_to_peer message) (λ _. done (t + 5000 * per_ms)))
      else done next_send

  unfoldable pub connect_loop : ℕ → ℕ → ℕ → Run (Tunnel W) (Unit {0})
  connect_loop zero deadline next_send = throw out_of_fuel
  connect_loop (suc fuel) deadline next_send = and_then now (λ t. and_then established (λ up.
      if up
      then done tt
      else if leb deadline t
      then throw (runtime_error "timed out establishing WireGuard session over DERP")
      else and_then (initiate_if_due t next_send) (λ next. and_then now (λ t'.
        and_then (receive_one_for (wait_ms next deadline t'))
          (λ _. connect_loop fuel deadline next)))))

  unfoldable pub connect : ℤ → Run (Tunnel W) (Unit {0})
  connect (negsuc _) = throw (invalid_argument "WireGuard connect timeout must be positive")
  connect (pos zero) = throw (invalid_argument "WireGuard connect timeout must be positive")
  connect (pos (suc n)) = and_then established (λ up.
      if up
      then done tt
      else and_then now (λ t.
        let deadline = t + suc n * per_ms in
        and_then now (λ next_send. connect_loop (rounds deadline) deadline next_send)))

  unfoldable pub milliseconds_left : ℕ → ℕ → ℕ
  milliseconds_left deadline t =
      if leb deadline t
      then 0
      else (let remaining = (deadline - t) / per_ms in if remaining == 0 then 1 else remaining)

  -- The next round of pump_for, if the last one brought no plaintext.
  unfoldable pub pump_on :
      Run (Tunnel W) (Option Bytes) → Bool × Option Bytes → Run (Tunnel W) (Option Bytes)
  pump_on again (false, _) = done none
  pump_on again (true, some plaintext) = done (some plaintext)
  pump_on again (true, none) = again

  unfoldable pub pump_loop : ℕ → ℕ → Run (Tunnel W) (Option Bytes)
  pump_loop zero deadline = throw out_of_fuel
  pump_loop (suc fuel) deadline =
      let again = pump_loop fuel deadline in
      and_then now (λ t.
        if milliseconds_left deadline t == 0
        then done none
        else and_then (receive_one_for (milliseconds_left deadline t)) (pump_on again))

  unfoldable pub pump_for : ℤ → Run (Tunnel W) (Option Bytes)
  pump_for (negsuc _) = throw (invalid_argument "negative WireGuard pump timeout")
  pump_for (pos timeout) =
      and_then now
        (λ t. let deadline = t + timeout * per_ms in pump_loop (rounds deadline) deadline)

  unfoldable pub send_ip_packet : Bytes → Run (Tunnel W) (Unit {0})
  send_ip_packet packet = and_then established (λ up.
      if not up
      then throw (runtime_error "WireGuard session is not established")
      else and_then (encrypt packet) (λ sealed. send_to_peer sealed))
