-- ===== src/Rendezvous.antt =====
-- src/rendezvous.cpp: the exchange of MEOW packets over the relay before a tunnel starts.
pub mod Receive
pub mod Server
pub mod Client
use Prim.Native.String.{String, ◌++◌ as string_append}
use tailcat_in_c.Common.{
  ℕ, zero, suc, ◌+◌, ◌-◌, ◌*◌, ◌/◌, min, Bool, true, false, ◌||◌, not, List, [], ◌∷◌, Option, none,
  some, Bytes, bytes_eq, length, ltb, leb, ◌==◌, if◌then◌else◌, Error, Result, ok, err,
  runtime_error, invalid_argument, length_error, out_of_fuel, Run, done, throw, step, and_then,
}
use tailcat_in_c.Protocol.Types.{Key32, zero_key}
use tailcat_in_c.Protocol.Cbor.Int64.{ℤ, pos, negsuc}
use tailcat_in_c.Protocol.Meow.{
  encode_meow_ping, encode_meowed, is_meow_packet, is_meowed_packet, parse_meow_ping,
}
use tailcat_in_c.Derp.FrameType
use tailcat_in_c.Derp.Frame.{DerpFrame}
use tailcat_in_c.Derp.Client.{NodeKeyPair, parse_derp_recv_packet}
use tailcat_in_c.Derp.Transport.{Call, DerpTransport, send_packet, send_pong, receive_for}

pub record ReceivedPacket : Type 0 where
  pub source : Key32
  pub packet : Bytes

pub record RendezvousPeer : Type 0 where
  pub node_public : Key32
  pub disco_public : Key32

-- The calls of the transport so far, and how often the clock was read.
pub record Session : Type 0 where
  pub calls : List Call
  pub readings : ℕ

-- A time is in nanoseconds.
abbrev pub per_ms : ℕ
per_ms = 1000000

-- `allow && !allow(source)`
abbrev pub refuses : Option (Key32 → Bool) → Key32 → Bool
refuses none source = false
refuses (some admits) source = not (admits source)

-- `e.what()`
abbrev pub what : Error → String
what (runtime_error m) = m
what (invalid_argument m) = m
what (length_error m) = m
what out_of_fuel = ""

-- `clock n` is the n-th value of `Clock::now()`. A loop with a deadline runs for up to `rounds
-- deadline` rounds: it reads the clock in each.
module _ (transport : DerpTransport) (clock rounds : ℕ → ℕ) where
  unfoldable pub call : {A : Type 0} → (List Call → Result A) → Call → Run Session A
  call answer c s = (answer (c ∷ s.calls), record s { calls = c ∷ s.calls })

  unfoldable pub now : Run Session ℕ
  now s = (ok (clock s.readings), record s { readings = suc s.readings })

  unfoldable pub milliseconds_left : ℕ → ℕ → ℕ
  milliseconds_left deadline t =
      if leb deadline t
      then 0
      else (let remaining = (deadline - t) / per_ms in if remaining == 0 then 1 else remaining)

  unfoldable pub remaining_ms : ℕ → Run Session ℕ
  remaining_ms deadline = and_then now (λ t. done (milliseconds_left deadline t))

  unfoldable pub answer_ping : Bytes → Run Session (Unit {0})
  answer_ping payload =
      if length payload == 8 then call transport.sends (send_pong payload) else done tt

  -- The `switch` of receive_packet_for; `again` is the next round of the loop.
  unfoldable pub take_frame :
      Run Session (Option ReceivedPacket) → Option DerpFrame → Run Session (Option ReceivedPacket)
  take_frame again none = done none
  take_frame again (some frame) =
      if frame.type == FrameType.ping
      then and_then (answer_ping frame.payload) (λ _. again)
      else if frame.type == FrameType.recv_packet
      then (let (taken, source, packet) = parse_derp_recv_packet frame.payload zero_key [] in
          if not taken
          then throw (runtime_error "malformed DERP RecvPacket frame")
          else done (some (record { source = source; packet = packet })))
      else again

  unfoldable pub receive_loop : ℕ → ℕ → Run Session (Option ReceivedPacket)
  receive_loop zero deadline = throw out_of_fuel
  receive_loop (suc fuel) deadline =
      let again = receive_loop fuel deadline in
      and_then (remaining_ms deadline) (λ remaining.
        if remaining == 0
        then done none
        else and_then (call transport.receives (receive_for remaining)) (take_frame again))

  unfoldable pub receive_until : ℕ → Run Session (Option ReceivedPacket)
  receive_until deadline = receive_loop (rounds deadline) deadline

  unfoldable pub receive_packet_for : ℤ → Run Session (Option ReceivedPacket)
  receive_packet_for (negsuc _) = throw (invalid_argument "negative DERP receive timeout")
  receive_packet_for (pos timeout) = and_then now (λ t. receive_until (t + timeout * per_ms))

  -- What the server does with a packet; `again` is the next round of its loop.
  unfoldable pub serve_packet :
      Option (Key32 → Bool)
      → Run Session (Option RendezvousPeer)
      → Option ReceivedPacket
      → Run Session (Option RendezvousPeer)
  serve_packet allow again none = done none
  serve_packet allow again (some incoming) =
      if not (is_meow_packet incoming.packet) || is_meowed_packet incoming.packet
      then again
      else (let (parsed, embedded_node, disco_public) =
            parse_meow_ping incoming.packet zero_key zero_key in
          if not parsed
          then again
          else if refuses allow incoming.source
          then again
          else and_then (call transport.sends (send_packet incoming.source encode_meowed)) (λ _.
            done (some (record { node_public = incoming.source; disco_public = disco_public }))))

  unfoldable pub serve_loop : ℕ → ℕ → Option (Key32 → Bool) → Run Session (Option RendezvousPeer)
  serve_loop zero deadline allow = throw out_of_fuel
  serve_loop (suc fuel) deadline allow =
      let again = serve_loop fuel deadline allow in
      and_then (remaining_ms deadline) (λ remaining.
        if remaining == 0
        then done none
        else and_then (receive_packet_for (pos remaining)) (serve_packet allow again))

  unfoldable pub serve_until : ℕ → Option (Key32 → Bool) → Run Session (Option RendezvousPeer)
  serve_until deadline allow = serve_loop (rounds deadline) deadline allow

  unfoldable pub rendezvous_server_once :
      ℤ → Option (Key32 → Bool) → Run Session (Option RendezvousPeer)
  rendezvous_server_once (negsuc _) allow = throw (invalid_argument "negative rendezvous timeout")
  rendezvous_server_once (pos timeout) allow =
      and_then now (λ t. serve_until (t + timeout * per_ms) allow)

  -- The client. `try { … } catch (const std::exception& e) { last_send_error = e.what(); }`
  unfoldable pub try_send : Key32 → Bytes → Run Session String
  try_send server packet s =
      let (sent, s') = call transport.sends (send_packet server packet) s in (ok (caught sent), s')
    where
      caught : Result (Unit {0}) → String
      caught (ok _) = ""
      caught (err e) = what e

  abbrev pub timed_out : String → Error
  timed_out String.[] = runtime_error "timed out waiting for Tailcat MEOWED acknowledgment"
  timed_out (String.◌∷◌ c m) = runtime_error (
      string_append "timed out waiting for Tailcat MEOWED acknowledgment"
        (string_append " (last send error: " (string_append (String.◌∷◌ c m) ")")))

  -- How long to wait for an answer: up to the next ping or the deadline, and a millisecond at least.
  unfoldable pub wait_ms : ℕ → ℕ → ℕ → ℕ
  wait_ms next_send deadline t =
      let wait = (min next_send deadline - t) / per_ms in if wait == 0 then 1 else wait

  unfoldable pub acknowledges : Key32 → ReceivedPacket → Bool
  acknowledges server incoming =
      if not (bytes_eq incoming.source server) then false else is_meowed_packet incoming.packet

  unfoldable pub await_ack : Key32 → ℕ → Run Session ℕ → Option ReceivedPacket → Run Session ℕ
  await_ack server started again none = again
  await_ack server started again (some incoming) =
      if acknowledges server incoming
      then and_then now (λ t. done ((t - started) / per_ms))
      else again

  -- A ping is due, or the last one still counts.
  unfoldable pub ping_if_due : Key32 → Bytes → ℕ → ℕ → String → Run Session (ℕ × String)
  ping_if_due server packet t next_send last_send_error =
      if leb next_send t
      then and_then (try_send server packet) (λ e. done (t + 1000 * per_ms, e))
      else done (next_send, last_send_error)

  unfoldable pub client_loop : ℕ → Key32 → Bytes → ℕ → ℕ → ℕ → String → Run Session ℕ
  client_loop zero server packet started deadline next_send last_send_error = throw out_of_fuel
  client_loop (suc fuel) server packet started deadline next_send last_send_error =
      and_then now (λ t.
        if leb deadline t
        then throw (timed_out last_send_error)
        else and_then (ping_if_due server packet t next_send last_send_error) (λ (next, last).
          and_then now (λ t'. and_then (receive_packet_for (pos (wait_ms next deadline t'))) (
            await_ack server started (client_loop fuel server packet started deadline next last)))))

  unfoldable pub rendezvous_client : NodeKeyPair → Key32 → Key32 → ℤ → Run Session ℕ
  rendezvous_client node_identity disco_public server_public (negsuc _) =
      throw (invalid_argument "rendezvous timeout must be positive")
  rendezvous_client node_identity disco_public server_public (pos zero) =
      throw (invalid_argument "rendezvous timeout must be positive")
  rendezvous_client node_identity disco_public server_public (pos (suc n)) =
      and_then now (λ started.
        let deadline = started + suc n * per_ms in
        client_loop (rounds deadline) server_public
          (encode_meow_ping node_identity.public_key disco_public) started deadline started "")
