-- ===== src/Rendezvous/Client.antt =====
-- rendezvous_client ends.
use Prim.Native.String.{String}
use tailcat_in_c.Common.{
  ℕ, zero, suc, ◌-◌, ◌≤◌, ◌≡◌, ◌∷◌, Option, none, some, arith, Bytes, leb, runtime-ne, invalid-ne,
  Run, Triple, done-Triple, throw-Triple, if-Triple, weaken-Triple, and_then-Triple,
}
use tailcat_in_c.Protocol.Types.{Key32}
use tailcat_in_c.Protocol.Cbor.Int64.{ℤ, pos, negsuc}
use tailcat_in_c.Derp.Client.{NodeKeyPair}
use tailcat_in_c.Derp.Transport.{Call, DerpTransport}
use tailcat_in_c.Rendezvous.{
  ReceivedPacket, Session, call, try_send, timed_out, acknowledges, await_ack, ping_if_due,
  client_loop, rendezvous_client,
}
use tailcat_in_c.Rendezvous.Receive.{Thrown, IsTransport, Passes, now-Triple, Enough}
use tailcat_in_c.Rendezvous.Server.{receive-Enough}

module _ (transport : DerpTransport) (clock rounds : ℕ → ℕ) (works : IsTransport transport)
    (passing : Passes clock rounds) where
  timed_out-Thrown : (m : String) → Thrown (timed_out transport clock rounds m)
  timed_out-Thrown String.[] = runtime-ne
  timed_out-Thrown (String.◌∷◌ c m) = runtime-ne

  -- A failed send is an answer like any other.
  try_send-Triple :
      (P : Session → Type 0) (server : Key32) (packet : Bytes)
      → ((s : Session) (c : Call) → P s → P (record s { calls = c ∷ s.calls }))
      → Triple P (try_send transport clock rounds server packet) (λ _ s. P s) Thrown
  unfolding try_send call
  try_send-Triple P server packet k = record { runs = λ s h. k s _ h }

  ping_if_due-Triple :
      (P : Session → Type 0) (server : Key32) (packet : Bytes) (t next : ℕ) (last : String)
      → ((s : Session) (c : Call) → P s → P (record s { calls = c ∷ s.calls }))
      → Triple P (ping_if_due transport clock rounds server packet t next last) (λ _ s. P s) Thrown
  unfolding ping_if_due
  ping_if_due-Triple P server packet t next last k =
      if-Triple (leb next t)
        (λ _.
          and_then-Triple (λ _ s. P s) (try_send-Triple P server packet k)
            (λ e. done-Triple _ (λ s h. h)))
        (λ _. done-Triple _ (λ s h. h))

  await_ack-Triple :
      (P : Session → Type 0) (server : Key32) (started : ℕ) (again : Run Session ℕ)
      (p : Option ReceivedPacket)
      → Triple P again (λ _ _. Unit {0}) Thrown
      → Triple P (await_ack transport clock rounds server started again p) (λ _ _. Unit {0}) Thrown
  unfolding await_ack
  await_ack-Triple P server started again none t = t
  await_ack-Triple P server started again (some incoming) t =
      if-Triple (acknowledges transport clock rounds server incoming)
        (λ _.
          and_then-Triple (λ _ _. Unit {0}) (now-Triple transport clock rounds _ _ (λ s h. tt))
            (λ t. done-Triple _ (λ s h. tt)))
        (λ _. t)

  client_loop-Triple :
      (server : Key32) (packet : Bytes) (started deadline next : ℕ) (last : String) (fuel : ℕ)
      → Triple
          (Enough transport clock rounds 0 deadline fuel)
          (client_loop transport clock rounds (suc fuel) server packet started deadline next last)
          (λ _ _. Unit {0})
          Thrown
  unfolding client_loop
  client_loop-Triple server packet started deadline next last zero =
      and_then-Triple (λ t _. deadline ≤ t)
        (now-Triple transport clock rounds _ _
          (λ s (h, enough). passing.passes deadline s.readings (omega arith)))
        (λ t.
          if-Triple (leb deadline t) (λ _. throw-Triple _ (timed_out-Thrown last))
            (λ early. record { runs = λ s late. absurd (ground arith) }))
  client_loop-Triple server packet started deadline next last (suc fuel) =
      and_then-Triple (λ _ s. Enough transport clock rounds 0 deadline fuel s)
        (now-Triple transport clock rounds _ _ (λ s (h, enough). (omega arith, omega arith)))
        (λ t.
          if-Triple (leb deadline t) (λ _. throw-Triple _ (timed_out-Thrown last))
            (λ _.
              and_then-Triple (λ _ s. Enough transport clock rounds 0 deadline fuel s)
                (ping_if_due-Triple _ server packet t next last (λ s c h. h))
                (λ (next', last').
                  and_then-Triple (λ _ s. Enough transport clock rounds 0 deadline fuel s)
                    (now-Triple transport clock rounds _ _
                      (λ s (h, enough). (omega arith, omega arith)))
                    (λ t'.
                      and_then-Triple (λ _ s. Enough transport clock rounds 0 deadline fuel s)
                        (receive-Enough transport clock rounds works passing 0 deadline fuel _)
                        (λ p.
                          await_ack-Triple _ server started _ p (
                            client_loop-Triple server packet started deadline next' last' fuel))))))

  client_until-Triple :
      (server : Key32) (packet : Bytes) (started deadline next : ℕ) (last : String)
      → Triple
          (λ _. Unit {0})
          (client_loop transport clock rounds
            (rounds deadline)
            server
            packet
            started
            deadline
            next
            last)
          (λ _ _. Unit {0})
          Thrown
  client_until-Triple server packet started deadline next last = rw fuel_is (
      weaken-Triple (λ s h. (omega arith, omega (arith, passing.some_round deadline)))
        (client_loop-Triple server packet started deadline next last (rounds deadline - 1)))
    where
      fuel_is : rounds deadline ≡ suc (rounds deadline - 1)
      fuel_is = omega (arith, passing.some_round deadline)

  -- rendezvous_client returns or throws an exception of the program, whatever frames arrive and
  -- whether or not its pings can be sent, if the transport throws only such exceptions and the
  -- clock passes every deadline within the rounds given.
  pub rendezvous_client-ends :
      (node_identity : NodeKeyPair) (disco_public server_public : Key32) (timeout : ℤ)
      → Triple
          (λ _. Unit {0})
          (rendezvous_client transport clock rounds node_identity disco_public server_public
            timeout)
          (λ _ _. Unit {0})
          Thrown
  unfolding rendezvous_client
  rendezvous_client-ends node_identity disco_public server_public (negsuc _) =
      throw-Triple _ invalid-ne
  rendezvous_client-ends node_identity disco_public server_public (pos zero) =
      throw-Triple _ invalid-ne
  rendezvous_client-ends node_identity disco_public server_public (pos (suc n)) =
      and_then-Triple (λ _ _. Unit {0}) (now-Triple transport clock rounds _ _ (λ s h. tt))
        (λ started. client_until-Triple server_public _ started _ started "")
