-- ===== src/Relay/Adoption.antt =====
-- What waits to be connected, in a round of accept_new of src/port_forward.cpp or src/local_forward.cpp: who
-- of it becomes a connection, and who is turned away.
use tailcat_in_c.Common.{
  ℕ, ◌≡◌, refl, sym, ap, ◌∙◌, List, [], ◌∷◌, ◌++◌, append-nil, append_assoc, map, Error, Result, ok,
  err,
}
use tailcat_in_c.Relay.{Connection}

-- The log of what was asked for, the connections, and what was turned away, the latest first.
pub record Desk (R : Type 0) : Type 0 where
  pub asked : List ℕ
  pub connections : List Connection
  pub refused : List R

-- The one list, from its front, put on top of the other.
abbrev pub onto : {A : Type 0} → List A → List A → List A
onto [] ys = ys
onto (x ∷ xs) ys = onto xs (x ∷ ys)

onto-append : {A : Type 0} (xs ys zs : List A) → onto (xs ++ ys) zs ≡ onto ys (onto xs zs)
onto-append [] ys zs = refl
onto-append (x ∷ xs) ys zs = onto-append xs ys (x ∷ zs)

map-append : {A B : Type 0} (f : A → B) (xs ys : List A) → map f (xs ++ ys) ≡ map f xs ++ map f ys
map-append f [] ys = refl
map-append f (x ∷ xs) ys = ap (λ l. f x ∷ l) (map-append f xs ys)

-- `ask` connects to a port, or throws; `connection` is made of what waited and of the answer, and
-- `refusal` is what becomes of it otherwise.
module _ {I A R : Type 0} (ask : List ℕ → Result A) (connection : I → A → Connection)
    (refusal : I → R) where
  -- From one log to another, each that waits is asked for once, in order: it is adopted where the
  -- answer is good, and turned away where it is not.
  pub data Adopts : List ℕ → List (ℕ × I) → List Connection → List I → List ℕ → Type 0 where
    nobody : (log : List ℕ) → Adopts log [] [] [] log
    connected :
        {log log' : List ℕ} {waiting : List (ℕ × I)} {adopted : List Connection} {rejected : List I}
        (port : ℕ) (one : I) (answer : A)
        → ask (port ∷ log) ≡ ok answer
        → Adopts (port ∷ log) waiting adopted rejected log'
        → Adopts log ((port, one) ∷ waiting) (connection one answer ∷ adopted) rejected log'
    turned_away :
        {log log' : List ℕ} {waiting : List (ℕ × I)} {adopted : List Connection} {rejected : List I}
        (port : ℕ) (one : I) (e : Error)
        → ask (port ∷ log) ≡ err e
        → Adopts (port ∷ log) waiting adopted rejected log'
        → Adopts log ((port, one) ∷ waiting) adopted (one ∷ rejected) log'

  Adopts-append :
      {log log1 log2 : List ℕ} {xs ys : List (ℕ × I)} {cs ds : List Connection} {rs ss : List I}
      → Adopts log xs cs rs log1
      → Adopts log1 ys ds ss log2
      → Adopts log (xs ++ ys) (cs ++ ds) (rs ++ ss) log2
  Adopts-append (nobody log) later = later
  Adopts-append (connected port one answer e first) later =
      connected port one answer e (Adopts-append first later)
  Adopts-append (turned_away port one e f first) later =
      turned_away port one e f (Adopts-append first later)

  pub record Taken (waiting : List (ℕ × I)) (d d' : Desk R) : Type 0 where
    pub adopted : List Connection
    pub rejected : List I
    pub decided : Adopts d.asked waiting adopted rejected d'.asked
    pub connections : d'.connections ≡ d.connections ++ adopted
    pub refused : d'.refused ≡ onto (map refusal rejected) d.refused

  pub nobody-Taken : (d : Desk R) → Taken [] d d
  nobody-Taken d = record {
    adopted = [];
    rejected = [];
    decided = nobody d.asked;
    connections = sym (append-nil d.connections);
    refused = refl;
  }

  pub Taken-append :
      {xs ys : List (ℕ × I)} {d d1 d2 : Desk R}
      → Taken xs d d1
      → Taken ys d1 d2
      → Taken (xs ++ ys) d d2
  Taken-append {d = d} {d2 = d2} first later = record {
    adopted = first.adopted ++ later.adopted;
    rejected = first.rejected ++ later.rejected;
    decided = Adopts-append first.decided later.decided;
    connections =
        later.connections
        ∙ (ap (λ cs. cs ++ later.adopted) first.connections
            ∙ append_assoc d.connections first.adopted later.adopted);
    refused =
        later.refused
        ∙ (ap (onto (map refusal later.rejected)) first.refused
            ∙ sym (
                ap (λ l. onto l d.refused) (map-append refusal first.rejected later.rejected)
                ∙ onto-append (map refusal first.rejected) (map refusal later.rejected) d.refused));
  }
