-- ===== src/Tests/Rendezvous.antt =====
-- A rendezvous on a relay that delivers pings, and a clock of a millisecond a reading.
use tailcat_in_c.Common.{
  ℕ, suc, ◌*◌, ◌≡◌, refl, [], ◌∷◌, ◌++◌, none, some, arith, replicate, ok, Triple, and_then, done,
}
use tailcat_in_c.Protocol.Types.{Key32, zero_key, all_zero}
use tailcat_in_c.Protocol.Cbor.Int64.{pos}
use tailcat_in_c.Protocol.Meow.{
  encode_meow_ping, encode_meowed, is_meow_packet, is_meowed_packet, parse_meow_ping,
}
use tailcat_in_c.Derp.Client.{parse_derp_recv_packet}
use tailcat_in_c.Derp.Transport.{DerpTransport, send_packet, receive_for}
use tailcat_in_c.Rendezvous.{
  Session, rendezvous_server_once, rendezvous_client, receive_packet_for, now, serve_until,
  serve_loop, remaining_ms, milliseconds_left, receive_until, receive_loop, call, take_frame,
  serve_packet,
}
use tailcat_in_c.Rendezvous.Receive.{Thrown, IsTransport, Passes}
use tailcat_in_c.Rendezvous.Server.{IsAccepted, rendezvous_server_once-IsAccepted}
use tailcat_in_c.Rendezvous.Client.{rendezvous_client-ends}

abbrev visitor : Key32
visitor = replicate 32 5

abbrev visitor_disco : Key32
visitor_disco = replicate 32 9

abbrev pinging : DerpTransport
pinging = record {
  sends = λ _. ok tt;
  receives = λ _.
      ok (some (record { type = 5; payload = visitor ++ encode_meow_ping visitor visitor_disco }));
}

pinging-IsTransport : IsTransport pinging
pinging-IsTransport = record { sends_ends = λ _ e. cc; receives_ends = λ _ e. cc }

abbrev ticking : ℕ → ℕ
ticking n = n * 1000000

ticking-Passes : Passes ticking suc
ticking-Passes = record { some_round = λ d. omega arith; passes = λ d n h. omega arith }

abbrev fresh : Session
fresh = record { calls = []; readings = 0 }

serve_run : rendezvous_server_once pinging ticking suc (pos 5) none fresh ≡ (
  ok (some (record { node_public = visitor; disco_public = visitor_disco })),
  record { calls = send_packet visitor encode_meowed ∷ receive_for 3 ∷ []; readings = 4 },
)
unfolding rendezvous_server_once and_then now serve_until serve_loop remaining_ms done
    milliseconds_left receive_packet_for receive_until receive_loop call take_frame
    parse_derp_recv_packet serve_packet encode_meowed is_meow_packet is_meowed_packet
    parse_meow_ping all_zero encode_meow_ping
serve_run = refl

rendezvous_server_once-IsAccepted_example :
    Triple
      (λ _. Unit {0})
      (rendezvous_server_once pinging ticking suc (pos 2) none)
      (IsAccepted none)
      Thrown
rendezvous_server_once-IsAccepted_example =
    rendezvous_server_once-IsAccepted pinging ticking suc pinging-IsTransport ticking-Passes none
      (pos 2)

rendezvous_client-ends_example :
    Triple
      (λ _. Unit {0})
      (rendezvous_client pinging ticking suc
        (record { private_key = zero_key; public_key = visitor })
        visitor_disco
        visitor
        (pos 3))
      (λ _ _. Unit {0})
      Thrown
rendezvous_client-ends_example =
    rendezvous_client-ends pinging ticking suc pinging-IsTransport ticking-Passes
      (record { private_key = zero_key; public_key = visitor }) visitor_disco visitor (pos 3)
