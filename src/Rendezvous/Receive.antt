-- ===== src/Rendezvous/Receive.antt =====
-- receive_packet_for ends at its deadline, on a clock that passes it.
use tailcat_in_c.Common.{
  ℕ, zero, suc, ◌+◌, ◌-◌, ◌≤◌, ◌≡◌, ◌≢◌, ap, not, List, [], ◌∷◌, Option, none, some, arith, Bytes,
  length, ◌==◌, Error, Result, ok, err, out_of_fuel, runtime-ne, invalid-ne, Run, done, After,
  Triple, done-Triple, throw-Triple, if-Triple, weaken-Triple, and_then-Triple,
}
use tailcat_in_c.Protocol.Types.{zero_key}
use tailcat_in_c.Protocol.Cbor.Int64.{ℤ, pos, negsuc}
use tailcat_in_c.Derp.FrameType
use tailcat_in_c.Derp.Frame.{DerpFrame}
use tailcat_in_c.Derp.Client.{parse_derp_recv_packet}
use tailcat_in_c.Derp.Transport.{Call, DerpTransport}
use tailcat_in_c.Rendezvous.{
  ReceivedPacket, Session, call, now, milliseconds_left, remaining_ms, answer_ping, take_frame,
  receive_loop, receive_until, receive_packet_for,
}

-- An exception of the program.
abbrev pub Thrown : Error → Type 0
Thrown e = e ≢ out_of_fuel

-- The transport throws exceptions of the program only.
pub record IsTransport (transport : DerpTransport) : Type 0 where
  pub sends_ends : (calls : List Call) → transport.sends calls ≢ err out_of_fuel
  pub receives_ends : (calls : List Call) → transport.receives calls ≢ err out_of_fuel

-- The clock passes every deadline within the rounds that a loop has for it.
pub record Passes (clock rounds : ℕ → ℕ) : Type 0 where
  pub some_round : (deadline : ℕ) → 1 ≤ rounds deadline
  pub passes : (deadline n : ℕ) → rounds deadline ≤ suc n → deadline ≤ clock n

module _ (transport : DerpTransport) (clock rounds : ℕ → ℕ) where
  pub call-Triple :
      {A : Type 0} (P : Session → Type 0) (Q : A → Session → Type 0) (answer : List Call → Result A)
      (c : Call)
      → ((calls : List Call) → answer calls ≢ err out_of_fuel)
      → ((s : Session) (a : A) → P s → Q a (record s { calls = c ∷ s.calls }))
      → Triple P (call transport clock rounds answer c) Q Thrown
  unfolding call
  call-Triple {A} P Q answer c ends k = record {
    runs = λ s h. after (answer (c ∷ s.calls)) s h (ends (c ∷ s.calls));
  }
    where
      after :
          (r : Result A) (s : Session)
          → P s
          → r ≢ err out_of_fuel
          → After Q Thrown (r, record s { calls = c ∷ s.calls })
      after (ok a) s h ne = k s a h
      after (err e) s h ne = λ same. ne (ap (λ x. err x) same)

  pub now-Triple :
      (P : Session → Type 0) (Q : ℕ → Session → Type 0)
      → ((s : Session) → P s → Q (clock s.readings) (record s { readings = suc s.readings }))
      → Triple P (now transport clock rounds) Q Thrown
  unfolding now
  now-Triple P Q k = record { runs = k }

  -- A loop with `fuel` further rounds has enough of them, and `n` readings were made.
  abbrev pub Enough : ℕ → ℕ → ℕ → Session → Type 0
  Enough n deadline fuel s = (n ≤ s.readings) × (rounds deadline ≤ suc (s.readings + fuel))

  -- Time is up, or there is a further round.
  abbrev pub Round : ℕ → ℕ → ℕ → ℕ → Session → Type 0
  Round n deadline zero remaining s = (remaining ≡ 0) × (n ≤ s.readings)
  Round n deadline (suc fuel) remaining s = Enough n deadline fuel s

  pub remaining_ms-Triple :
      (n deadline fuel : ℕ)
      → Passes clock rounds
      → Triple
          (Enough n deadline fuel)
          (remaining_ms transport clock rounds deadline)
          (Round n deadline fuel)
          Thrown
  unfolding remaining_ms milliseconds_left
  remaining_ms-Triple n deadline zero passing =
      and_then-Triple (λ t s. (deadline ≤ t) × (n ≤ s.readings))
        (now-Triple (Enough n deadline zero) _
          (λ s (h, enough). (passing.passes deadline s.readings (omega arith), omega arith)))
        (λ t. done-Triple _ (λ s (late, h). (ground arith, h)))
  remaining_ms-Triple n deadline (suc fuel) passing =
      and_then-Triple (λ t s. Enough n deadline fuel s)
        (now-Triple (Enough n deadline (suc fuel)) _ (λ s (h, enough). (omega arith, omega arith)))
        (λ t. done-Triple _ (λ s h. h))

  module _ (works : IsTransport transport) (passing : Passes clock rounds) where
    answer_ping-Triple :
        (P : Session → Type 0) (payload : Bytes)
        → ((s : Session) (c : Call) → P s → P (record s { calls = c ∷ s.calls }))
        → Triple P (answer_ping transport clock rounds payload) (λ _ s. P s) Thrown
    unfolding answer_ping
    answer_ping-Triple P payload k =
        if-Triple (length payload == 8)
          (λ _. call-Triple P (λ _ s. P s) transport.sends _ works.sends_ends (λ s a h. k s _ h))
          (λ _. done-Triple tt (λ s h. h))

    -- The next round, if it ends, makes the frame's handling end.
    take_frame-Triple :
        (n deadline fuel : ℕ) (again : Run Session (Option ReceivedPacket))
        (frame : Option DerpFrame)
        → Triple (Enough n deadline fuel) again (λ _ s. n ≤ s.readings) Thrown
        → Triple
            (Enough n deadline fuel)
            (take_frame transport clock rounds again frame)
            (λ _ s. n ≤ s.readings)
            Thrown
    unfolding take_frame
    take_frame-Triple n deadline fuel again none t = done-Triple none (λ s h. h.0)
    take_frame-Triple n deadline fuel again (some frame) t =
        if-Triple (frame.type == FrameType.ping)
          (λ _.
            and_then-Triple (λ _ s. Enough n deadline fuel s)
              (answer_ping-Triple (Enough n deadline fuel) frame.payload (λ s c h. h)) (λ _. t))
          (λ _.
            if-Triple (frame.type == FrameType.recv_packet)
              (λ _.
                if-Triple (not ((parse_derp_recv_packet frame.payload zero_key []).0))
                  (λ _. throw-Triple _ runtime-ne) (λ _. done-Triple _ (λ s h. h.0)))
              (λ _. t))

    receive_loop-Triple :
        (n deadline fuel : ℕ)
        → Triple
            (Enough n deadline fuel)
            (receive_loop transport clock rounds (suc fuel) deadline)
            (λ _ s. n ≤ s.readings)
            Thrown
    unfolding receive_loop
    receive_loop-Triple n deadline zero =
        and_then-Triple (Round n deadline zero) (remaining_ms-Triple n deadline zero passing)
          (λ remaining. record { runs = λ s (e, h). rw e (unfold done in h) })
    receive_loop-Triple n deadline (suc fuel) =
        and_then-Triple (Round n deadline (suc fuel))
          (remaining_ms-Triple n deadline (suc fuel) passing)
          (λ remaining.
            if-Triple (remaining == 0) (λ _. done-Triple none (λ s h. h.0))
              (λ _.
                and_then-Triple (λ _ s. Enough n deadline fuel s)
                  (call-Triple (Enough n deadline fuel) _ transport.receives _ works.receives_ends
                    (λ s a h. h))
                  (λ frame.
                    take_frame-Triple n deadline fuel _ frame
                      (receive_loop-Triple n deadline fuel))))

    receive_until-Triple :
        (n deadline : ℕ)
        → Triple
            (λ s. n ≤ s.readings)
            (receive_until transport clock rounds deadline)
            (λ _ s. n ≤ s.readings)
            Thrown
    unfolding receive_until
    receive_until-Triple n deadline = rw fuel_is (
        weaken-Triple (λ s h. (h, omega (arith, passing.some_round deadline)))
          (receive_loop-Triple n deadline (rounds deadline - 1)))
      where
        fuel_is : rounds deadline ≡ suc (rounds deadline - 1)
        fuel_is = omega (arith, passing.some_round deadline)

    -- receive_packet_for returns or throws an exception of the program, whatever frames arrive, if
    -- the transport throws only such exceptions and the clock passes every deadline within the
    -- rounds given; the number of readings does not go down.
    pub receive_packet_for-Triple :
        (n : ℕ) (timeout : ℤ)
        → Triple
            (λ s. n ≤ s.readings)
            (receive_packet_for transport clock rounds timeout)
            (λ _ s. n ≤ s.readings)
            Thrown
    unfolding receive_packet_for
    receive_packet_for-Triple n (negsuc _) = throw-Triple _ invalid-ne
    receive_packet_for-Triple n (pos timeout) =
        and_then-Triple (λ _ s. n ≤ s.readings) (now-Triple _ _ (λ s h. omega arith))
          (λ t. receive_until-Triple n _)
