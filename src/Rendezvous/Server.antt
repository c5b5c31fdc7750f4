-- ===== src/Rendezvous/Server.antt =====
-- rendezvous_server_once: it ends, and whom it accepts.
use tailcat_in_c.Common.{
  ℕ, zero, suc, ◌-◌, ◌≡◌, refl, ap, Bool, true, false, ◌||◌, not, List, [], ◌∷◌, Option, none, some,
  arith, length, ◌==◌, invalid-ne, Run, done, After-map, Triple, done-Triple, throw-Triple,
  if-Triple, weaken-Triple, and_then-Triple,
}
use tailcat_in_c.Protocol.Types.{Key32, zero_key, all_zero}
use tailcat_in_c.Protocol.Cbor.Int64.{ℤ, pos, negsuc}
use tailcat_in_c.Protocol.Meow.{encode_meowed, is_meow_packet, is_meowed_packet, parse_meow_ping}
use tailcat_in_c.Protocol.Meow.Laws.{parse_meow_ping_sound}
use tailcat_in_c.Derp.Transport.{Call, DerpTransport, send_packet}
use tailcat_in_c.Rendezvous.{
  ReceivedPacket, RendezvousPeer, Session, refuses, receive_packet_for, serve_packet, serve_loop,
  serve_until, rendezvous_server_once,
}
use tailcat_in_c.Rendezvous.Receive.{
  Thrown, IsTransport, Passes, call-Triple, now-Triple, Enough, Round, remaining_ms-Triple,
  receive_packet_for-Triple,
}

abbrev pub latest : List Call → Option Call
latest [] = none
latest (c ∷ _) = some c

-- A peer that was accepted: `allow` admits its key, its disco key is good, and the last thing that
-- happened is the answer to it.
abbrev pub IsAccepted : Option (Key32 → Bool) → Option RendezvousPeer → Session → Type 0
IsAccepted allow none s = Unit
IsAccepted allow (some peer) s =
    (refuses allow peer.node_public ≡ false)
    × (length peer.disco_public ≡ 32)
    × (all_zero peer.disco_public ≡ false)
    × (latest s.calls ≡ some (send_packet peer.node_public encode_meowed))

module _ (transport : DerpTransport) (clock rounds : ℕ → ℕ) (works : IsTransport transport)
    (passing : Passes clock rounds) where
  -- Receiving a packet takes no round from an outer loop.
  pub receive-Enough :
      (n deadline fuel : ℕ) (timeout : ℤ)
      → Triple
          (Enough transport clock rounds n deadline fuel)
          (receive_packet_for transport clock rounds timeout)
          (λ _ s. Enough transport clock rounds n deadline fuel s)
          Thrown
  receive-Enough n deadline fuel timeout = record {
    runs = λ s (h, enough).
        After-map Thrown (receive_packet_for transport clock rounds timeout s)
          (λ _ s' later. (omega arith, omega arith))
          ((receive_packet_for-Triple transport clock rounds works passing s.readings timeout).runs
            s (omega arith));
  }

  module _ (allow : Option (Key32 → Bool)) where
    serve_packet-Triple :
        (n deadline fuel : ℕ) (again : Run Session (Option RendezvousPeer))
        (p : Option ReceivedPacket)
        → Triple (Enough transport clock rounds n deadline fuel) again (IsAccepted allow) Thrown
        → Triple
            (Enough transport clock rounds n deadline fuel)
            (serve_packet transport clock rounds allow again p)
            (IsAccepted allow)
            Thrown
    unfolding serve_packet
    serve_packet-Triple n deadline fuel again none t = done-Triple none (λ s h. tt)
    serve_packet-Triple n deadline fuel again (some incoming) t =
        if-Triple (not (is_meow_packet incoming.packet) || is_meowed_packet incoming.packet)
          (λ _. t)
          (λ _.
            if-Triple (not ((parse_meow_ping incoming.packet zero_key zero_key).0)) (λ _. t)
              (λ parsed.
                if-Triple (refuses allow incoming.source) (λ _. t)
                  (λ admitted.
                    let (_, _, _, size, set) =
                      parse_meow_ping_sound incoming.packet zero_key zero_key
                        ((parse_meow_ping incoming.packet zero_key zero_key).1)
                        ((parse_meow_ping incoming.packet zero_key zero_key).2)
                        (is_parsed parsed) in
                    and_then-Triple
                      (λ _ s. latest s.calls ≡ some (send_packet incoming.source encode_meowed))
                      (call-Triple transport clock rounds _ _ transport.sends _ works.sends_ends
                        (λ s a h. refl))
                      (λ _. done-Triple _ (λ s h. (admitted, size, set, h))))))
      where
        is_parsed :
            not ((parse_meow_ping incoming.packet zero_key zero_key).0) ≡ false
            → parse_meow_ping incoming.packet zero_key zero_key ≡ (
              true,
              (parse_meow_ping incoming.packet zero_key zero_key).1,
              (parse_meow_ping incoming.packet zero_key zero_key).2,
            )
        is_parsed e =
            ap
              (λ b. (
                b,
                (parse_meow_ping incoming.packet zero_key zero_key).1,
                (parse_meow_ping incoming.packet zero_key zero_key).2,
              ))
              (ground arith)

    serve_loop-Triple :
        (n deadline fuel : ℕ)
        → Triple
            (Enough transport clock rounds n deadline fuel)
            (serve_loop transport clock rounds (suc fuel) deadline allow)
            (IsAccepted allow)
            Thrown
    unfolding serve_loop
    serve_loop-Triple n deadline zero =
        and_then-Triple (Round transport clock rounds n deadline zero)
          (remaining_ms-Triple transport clock rounds n deadline zero passing)
          (λ remaining. record { runs = λ s (e, h). rw e (unfold done in tt) })
    serve_loop-Triple n deadline (suc fuel) =
        and_then-Triple (Round transport clock rounds n deadline (suc fuel))
          (remaining_ms-Triple transport clock rounds n deadline (suc fuel) passing)
          (λ remaining.
            if-Triple (remaining == 0) (λ _. done-Triple none (λ s h. tt))
              (λ _.
                and_then-Triple (λ _ s. Enough transport clock rounds n deadline fuel s)
                  (receive-Enough n deadline fuel (pos remaining))
                  (λ p.
                    serve_packet-Triple n deadline fuel _ p (serve_loop-Triple n deadline fuel))))

    serve_until-Triple :
        (deadline : ℕ)
        → Triple
            (λ _. Unit {0})
            (serve_until transport clock rounds deadline allow)
            (IsAccepted allow)
            Thrown
    unfolding serve_until
    serve_until-Triple deadline = rw fuel_is (
        weaken-Triple (λ s h. (omega arith, omega (arith, passing.some_round deadline)))
          (serve_loop-Triple 0 deadline (rounds deadline - 1)))
      where
        fuel_is : rounds deadline ≡ suc (rounds deadline - 1)
        fuel_is = omega (arith, passing.some_round deadline)

    -- rendezvous_server_once ends, if the transport throws only exceptions of the program and the
    -- clock passes every deadline within the rounds given: it throws such an exception, returns
    -- nothing, or returns a peer whose key allow admits, whose disco key has 32 bytes and is not
    -- zero, and to whom the latest call sent MEOWED.
    pub rendezvous_server_once-IsAccepted :
        (timeout : ℤ)
        → Triple
            (λ _. Unit {0})
            (rendezvous_server_once transport clock rounds timeout allow)
            (IsAccepted allow)
            Thrown
    unfolding rendezvous_server_once
    rendezvous_server_once-IsAccepted (negsuc _) = throw-Triple _ invalid-ne
    rendezvous_server_once-IsAccepted (pos timeout) =
        and_then-Triple (λ _ _. Unit {0}) (now-Triple transport clock rounds _ _ (λ s h. tt))
          (λ t. serve_until-Triple _)
