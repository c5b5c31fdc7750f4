-- ===== src/Relay/Pool.antt =====
-- The connections of one poll of src/port_forward.cpp or src/local_forward.cpp.
use tailcat_in_c.Common.{◌≡◌, true, false, if◌then◌else◌, List, [], ◌∷◌, if-holds, Each}
use tailcat_in_c.Lwip.{TcpApi}
use tailcat_in_c.Relay.{
  Connection, HostApi, ReaderRound, Side, service, service_all, erase_finished,
}
use tailcat_in_c.Relay.Delivery.{Reached, services, goes_on}

module _ (api : TcpApi) (answers : HostApi) (side : Side) where
  pub service_all-Reached :
      (rounds : List (List ReaderRound)) (connections : List Connection)
      → Each (Reached api answers side) connections
      → Each (Reached api answers side) (service_all api answers side rounds connections)
  unfolding service_all
  service_all-Reached rounds [] h = tt
  service_all-Reached [] (c ∷ connections) h =
      (goes_on h.0 (services []), service_all-Reached [] connections h.1)
  service_all-Reached (now ∷ rounds) (c ∷ connections) h =
      (goes_on h.0 (services now), service_all-Reached rounds connections h.1)

pub erase_finished-Each :
    (P : Connection → Type 0) (connections : List Connection)
    → Each P connections
    → Each (λ c. P c × (c.finished ≡ false)) (erase_finished connections)
unfolding erase_finished
erase_finished-Each P [] h = tt
erase_finished-Each P (c ∷ connections) h =
    if-holds (Each (λ c. P c × (c.finished ≡ false))) c.finished
      (λ _. erase_finished-Each P connections h.1)
      (λ e. ((h.0, e), erase_finished-Each P connections h.1))

pub Each-weaken :
    {P Q : Connection → Type 0} (connections : List Connection)
    → ((c : Connection) → P c → Q c)
    → Each P connections
    → Each Q connections
Each-weaken [] k h = tt
Each-weaken (c ∷ connections) k h = (k c h.0, Each-weaken connections k h.1)

module _ (api : TcpApi) (answers : HostApi) (side : Side) where
  -- A round of service and the erasure behind it: each connection is served once, by some rounds of its
  -- reader; those that are finished then are left out, and the others stay, in their order.
  pub data Serviced : List Connection → List Connection → Type 0 where
    no_more : Serviced [] []
    stays :
        {before after : List Connection} (now : List ReaderRound) (c : Connection)
        → (service api answers side now c).finished ≡ false
        → Serviced before after
        → Serviced (c ∷ before) (service api answers side now c ∷ after)
    leaves :
        {before after : List Connection} (now : List ReaderRound) (c : Connection)
        → (service api answers side now c).finished ≡ true
        → Serviced before after
        → Serviced (c ∷ before) after

  erase-Serviced :
      {before after : List Connection} (now : List ReaderRound) (c : Connection)
      → Serviced before after
      → Serviced (c ∷ before) (
          if (service api answers side now c).finished
          then after
          else service api answers side now c ∷ after)
  erase-Serviced {before} now c h =
      if-holds (Serviced (c ∷ before)) (service api answers side now c).finished
        (λ e. leaves now c e h) (λ e. stays now c e h)

  pub service_all-Serviced :
      (rounds : List (List ReaderRound)) (connections : List Connection)
      → Serviced connections (erase_finished (service_all api answers side rounds connections))
  unfolding service_all erase_finished
  service_all-Serviced rounds [] = no_more
  service_all-Serviced [] (c ∷ connections) =
      erase-Serviced [] c (service_all-Serviced [] connections)
  service_all-Serviced (now ∷ rounds) (c ∷ connections) =
      erase-Serviced now c (service_all-Serviced rounds connections)
