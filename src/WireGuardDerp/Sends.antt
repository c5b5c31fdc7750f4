-- ===== src/WireGuardDerp/Sends.antt =====
-- What a tunnel sends, and what reaches its engine.
use tailcat_in_c.Common.{
  ℕ, zero, suc, ◌≡◌, refl, Bool, true, false, not, List, [], ◌∷◌, Option, none, some, Bytes,
  bytes_eq, empty, length, leb, ◌==◌, ok, Run, done, Maintains, done-Maintains, throw-Maintains,
  if-Maintains, and_then-Maintains,
}
use tailcat_in_c.Protocol.Types.{Key32, zero_key}
use tailcat_in_c.Protocol.Cbor.Int64.{ℤ, pos, negsuc}
use tailcat_in_c.Derp.FrameType
use tailcat_in_c.Derp.Frame.{DerpFrame}
use tailcat_in_c.Derp.Client.{parse_derp_recv_packet}
use tailcat_in_c.Derp.Transport.{Call, DerpTransport, send_packet, send_pong, receive_for}
use tailcat_in_c.DataPlane.Parts.{WireGuardPeerEngine}
use tailcat_in_c.WireGuardDerp.{
  Tunnel, call, now, handle, initiate, encrypt, established, send_to_peer, handle_packet,
  handle_frame, receive_one_for, initiate_if_due, connect_loop, connect, milliseconds_left, pump_on,
  pump_loop, pump_for, send_ip_packet,
}

-- Every packet went to `peer`.
abbrev pub OnlyTo : Key32 → List Call → Type 0
OnlyTo peer [] = Unit
OnlyTo peer (send_packet node _ ∷ calls) = (node ≡ peer) × OnlyTo peer calls
OnlyTo peer (send_pong _ ∷ calls) = OnlyTo peer calls
OnlyTo peer (receive_for _ ∷ calls) = OnlyTo peer calls

module _ {W : Type 0} (transport : DerpTransport) (engine : WireGuardPeerEngine W)
    (clock rounds : ℕ → ℕ) (peer_public : Key32) where
  abbrev Loyal : Tunnel W → Type 0
  Loyal t = OnlyTo peer_public t.calls

  send_to_peer-Loyal :
      (packet : Bytes)
      → Maintains Loyal (send_to_peer transport engine clock rounds peer_public packet)
  unfolding send_to_peer call
  send_to_peer-Loyal packet = record { keeps = λ t h. (refl, h) }

  pong-Loyal :
      (value : Bytes)
      → Maintains Loyal
          (call transport engine clock rounds peer_public transport.sends (send_pong value))
  unfolding call
  pong-Loyal value = record { keeps = λ t h. h }

  receive-Loyal :
      (timeout : ℕ)
      → Maintains Loyal
          (call transport engine clock rounds peer_public transport.receives (receive_for timeout))
  unfolding call
  receive-Loyal timeout = record { keeps = λ t h. h }

  now-Loyal : Maintains Loyal (now transport engine clock rounds peer_public)
  unfolding now
  now-Loyal = record { keeps = λ t h. h }

  handle-Loyal :
      (packet : Bytes) → Maintains Loyal (handle transport engine clock rounds peer_public packet)
  unfolding handle
  handle-Loyal packet = record { keeps = λ t h. h }

  initiate-Loyal : Maintains Loyal (initiate transport engine clock rounds peer_public)
  unfolding initiate
  initiate-Loyal = record { keeps = λ t h. h }

  encrypt-Loyal :
      (packet : Bytes) → Maintains Loyal (encrypt transport engine clock rounds peer_public packet)
  unfolding encrypt
  encrypt-Loyal packet = record { keeps = λ t h. h }

  established-Loyal : Maintains Loyal (established transport engine clock rounds peer_public)
  unfolding established
  established-Loyal = record { keeps = λ t h. h }

  handle_packet-Loyal :
      (packet : Bytes)
      → Maintains Loyal (handle_packet transport engine clock rounds peer_public packet)
  unfolding handle_packet
  handle_packet-Loyal packet = and_then-Maintains Loyal (handle-Loyal packet) (λ result.
      and_then-Maintains Loyal
        (if-Maintains Loyal (empty result.outbound) (λ _. done-Maintains Loyal tt)
          (λ _. send_to_peer-Loyal result.outbound))
        (λ _. done-Maintains Loyal _))

  handle_frame-Loyal :
      (frame : Option DerpFrame)
      → Maintains Loyal (handle_frame transport engine clock rounds peer_public frame)
  unfolding handle_frame
  handle_frame-Loyal none = done-Maintains Loyal _
  handle_frame-Loyal (some frame) =
      if-Maintains Loyal (frame.type == FrameType.ping)
        (λ _.
          and_then-Maintains Loyal
            (if-Maintains Loyal (length frame.payload == 8) (λ _. pong-Loyal frame.payload)
              (λ _. done-Maintains Loyal tt))
            (λ _. done-Maintains Loyal _))
        (λ _.
          if-Maintains Loyal (not (frame.type == FrameType.recv_packet))
            (λ _. done-Maintains Loyal _)
            (λ _.
              if-Maintains Loyal (not ((parse_derp_recv_packet frame.payload zero_key []).0))
                (λ _. throw-Maintains Loyal _)
                (λ _.
                  if-Maintains Loyal
                    (not
                      (bytes_eq ((parse_derp_recv_packet frame.payload zero_key []).1) peer_public))
                    (λ _. done-Maintains Loyal _) (λ _. handle_packet-Loyal _))))

  receive_one_for-Loyal :
      (timeout : ℕ)
      → Maintains Loyal (receive_one_for transport engine clock rounds peer_public timeout)
  unfolding receive_one_for
  receive_one_for-Loyal timeout =
      and_then-Maintains Loyal (receive-Loyal timeout) (λ frame. handle_frame-Loyal frame)

  initiate_if_due-Loyal :
      (t next : ℕ)
      → Maintains Loyal (initiate_if_due transport engine clock rounds peer_public t next)
  unfolding initiate_if_due
  initiate_if_due-Loyal t next =
      if-Maintains Loyal (leb next t)
        (λ _. and_then-Maintains Loyal initiate-Loyal (λ message.
          and_then-Maintains Loyal (send_to_peer-Loyal message) (λ _. done-Maintains Loyal _)))
        (λ _. done-Maintains Loyal next)

  connect_loop-Loyal :
      (fuel deadline next : ℕ)
      → Maintains Loyal (connect_loop transport engine clock rounds peer_public fuel deadline next)
  unfolding connect_loop
  connect_loop-Loyal zero deadline next = throw-Maintains Loyal _
  connect_loop-Loyal (suc fuel) deadline next = and_then-Maintains Loyal now-Loyal (λ t.
      and_then-Maintains Loyal established-Loyal (λ up.
        if-Maintains Loyal up (λ _. done-Maintains Loyal tt)
          (λ _.
            if-Maintains Loyal (leb deadline t) (λ _. throw-Maintains Loyal _)
              (λ _. and_then-Maintains Loyal (initiate_if_due-Loyal t next) (λ next'.
                and_then-Maintains Loyal now-Loyal (λ t'.
                  and_then-Maintains Loyal (receive_one_for-Loyal _)
                    (λ _. connect_loop-Loyal fuel deadline next')))))))

  connect-Loyal :
      (timeout : ℤ) → Maintains Loyal (connect transport engine clock rounds peer_public timeout)
  unfolding connect
  connect-Loyal (negsuc _) = throw-Maintains Loyal _
  connect-Loyal (pos zero) = throw-Maintains Loyal _
  connect-Loyal (pos (suc n)) = and_then-Maintains Loyal established-Loyal (λ up.
      if-Maintains Loyal up (λ _. done-Maintains Loyal tt)
        (λ _.
          and_then-Maintains Loyal now-Loyal
            (λ t. and_then-Maintains Loyal now-Loyal (λ next. connect_loop-Loyal _ _ next))))

  pump_on-Loyal :
      (again : Run (Tunnel W) (Option Bytes)) (r : Bool × Option Bytes)
      → Maintains Loyal again
      → Maintains Loyal (pump_on transport engine clock rounds peer_public again r)
  unfolding pump_on
  pump_on-Loyal again (false, p) h = done-Maintains Loyal none
  pump_on-Loyal again (true, some p) h = done-Maintains Loyal (some p)
  pump_on-Loyal again (true, none) h = h

  pump_loop-Loyal :
      (fuel deadline : ℕ)
      → Maintains Loyal (pump_loop transport engine clock rounds peer_public fuel deadline)
  unfolding pump_loop
  pump_loop-Loyal zero deadline = throw-Maintains Loyal _
  pump_loop-Loyal (suc fuel) deadline = and_then-Maintains Loyal now-Loyal (λ t.
      if-Maintains Loyal
        (milliseconds_left transport engine clock rounds peer_public deadline t == 0)
        (λ _. done-Maintains Loyal none)
        (λ _.
          and_then-Maintains Loyal (receive_one_for-Loyal _)
            (λ r. pump_on-Loyal _ r (pump_loop-Loyal fuel deadline))))

  pump_for-Loyal :
      (timeout : ℤ) → Maintains Loyal (pump_for transport engine clock rounds peer_public timeout)
  unfolding pump_for
  pump_for-Loyal (negsuc _) = throw-Maintains Loyal _
  pump_for-Loyal (pos timeout) = and_then-Maintains Loyal now-Loyal (λ t. pump_loop-Loyal _ _)

  send_ip_packet-Loyal :
      (packet : Bytes)
      → Maintains Loyal (send_ip_packet transport engine clock rounds peer_public packet)
  unfolding send_ip_packet
  send_ip_packet-Loyal packet = and_then-Maintains Loyal established-Loyal (λ up.
      if-Maintains Loyal (not up) (λ _. throw-Maintains Loyal _)
        (λ _.
          and_then-Maintains Loyal (encrypt-Loyal packet) (λ sealed. send_to_peer-Loyal sealed)))

  -- connect, pump_for and send_ip_packet of a tunnel send packets to its peer only, whatever the
  -- relay and the engine do and however the operation ends.
  pub operations-OnlyTo :
      (t : Tunnel W) (timeout : ℤ) (packet : Bytes)
      → OnlyTo peer_public t.calls
      → OnlyTo peer_public ((connect transport engine clock rounds peer_public timeout t).1).calls
        × OnlyTo peer_public
            ((pump_for transport engine clock rounds peer_public timeout t).1).calls
        × OnlyTo peer_public
            ((send_ip_packet transport engine clock rounds peer_public packet t).1).calls
  operations-OnlyTo t timeout packet h = (
    (connect-Loyal timeout).keeps t h,
    (pump_for-Loyal timeout).keeps t h,
    (send_ip_packet-Loyal packet).keeps t h,
  )

  -- A packet that comes from another key than the peer of the tunnel never reaches the engine: it
  -- is dropped, and nothing is sent.
  pub handle_frame_foreign :
      (payload source packet : Bytes) (t : Tunnel W)
      → parse_derp_recv_packet payload zero_key [] ≡ (true, source, packet)
      → bytes_eq source peer_public ≡ false
      → handle_frame transport engine clock rounds peer_public
          (some (record { type = FrameType.recv_packet; payload = payload }))
          t
        ≡ (ok (true, none), t)
  unfolding handle_frame done
  handle_frame_foreign payload source packet t parsed foreign = rw (parsed, foreign)
