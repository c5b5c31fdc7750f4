-- ===== src/Protocol/Address/Total.antt =====
-- The layers below parse_tailcat_addr end on any input.
use Prim.Native.String.{String}
use tailcat_in_c.Common.{
  ℕ, zero, suc, ◌≤◌, ◌≡◌, refl, Bool, true, false, ◌&&◌, [], ◌∷◌, Bytes, codes, bytes_eq, length,
  leb, ◌==◌, Result, ok, err, runtime_error, invalid_argument, length_error, out_of_fuel,
  runtime-ne, throw_if, Ensures, returns, throws, Ensures-bind, Ensures-if,
}
use tailcat_in_c.Protocol.Base64.{b64_value, decode_groups, base64url_decode}
use tailcat_in_c.Protocol.Cbor.Reader
use tailcat_in_c.Protocol.Cbor.Reader.{Reader, for_count, skip, text, bytes, integer, boolean}
use tailcat_in_c.Protocol.Cbor.Skip.{Leaves, Leaves-if, for_count-Leaves, skip-Leaves}
use tailcat_in_c.Protocol.Cbor.Total.{map_size-Leaves, text-Leaves, integer-Leaves, boolean-Leaves}
use tailcat_in_c.Protocol.Types.{DerpNode, default_node, DerpRegion}
use tailcat_in_c.Protocol.Address.Parse.{entry, node_field, read_node, push_node, rethrow}

-- The base64 layer.
b64_value-Ensures : (c : ℕ) → Ensures (λ (_ : ℕ). Unit {0}) (b64_value c)
unfolding b64_value
b64_value-Ensures c = Ensures-if (leb b'A' c && leb c b'Z') (returns tt) (
    Ensures-if (leb b'a' c && leb c b'z') (returns tt) (
      Ensures-if (leb b'0' c && leb c b'9') (returns tt) (
        Ensures-if (c == b'-') (returns tt)
          (Ensures-if (c == b'_') (returns tt) (throws runtime-ne)))))

abbrev pub Ends : {A : Type 0} → Result A → Type 0
Ends {A} = Ensures (λ (_ : A). Unit {0})

decode_groups-Ends : (bs : Bytes) → Ends (decode_groups bs)
unfolding decode_groups
decode_groups-Ends [] = returns tt
decode_groups-Ends (_ ∷ []) = returns tt
decode_groups-Ends (w ∷ x ∷ []) =
    Ensures-bind (b64_value-Ensures w)
      (λ p _. Ensures-bind (b64_value-Ensures x) (λ q _. returns tt))
decode_groups-Ends (w ∷ x ∷ y ∷ []) = Ensures-bind (b64_value-Ensures w) (λ p _.
    Ensures-bind (b64_value-Ensures x)
      (λ q _. Ensures-bind (b64_value-Ensures y) (λ r _. returns tt)))
decode_groups-Ends (w ∷ x ∷ y ∷ z ∷ rest) = Ensures-bind (b64_value-Ensures w) (λ p _.
    Ensures-bind (b64_value-Ensures x) (λ q _. Ensures-bind (b64_value-Ensures y) (λ r _.
      Ensures-bind (b64_value-Ensures z)
        (λ s _. Ensures-bind (decode_groups-Ends rest) (λ t _. returns tt)))))

pub throw_if-Ensures :
    (b : Bool) (m : String) → Ensures (λ _. b ≡ false) (throw_if b (runtime_error m))
throw_if-Ensures true m = throws runtime-ne
throw_if-Ensures false m = returns refl

pub decode-Ends : (bs : Bytes) → Ends (base64url_decode bs)
unfolding base64url_decode
decode-Ends bs = Ensures-bind (throw_if-Ensures _ _) (λ _ _. decode_groups-Ends bs)

pub rethrow-Ends : {A : Type 0} (prefix : String) (r : Result A) → Ends r → Ends (rethrow prefix r)
unfolding rethrow
rethrow-Ends prefix (ok a) h = returns tt
rethrow-Ends prefix (err (runtime_error m)) h = throws runtime-ne
rethrow-Ends prefix (err (invalid_argument m)) h = throws runtime-ne
rethrow-Ends prefix (err (length_error m)) h = throws runtime-ne
rethrow-Ends prefix (err out_of_fuel) (throws n) = absurd (n refl)

-- A read that keeps `P` of the state.
abbrev pub Keeps : {S : Type 0} → (S → Type 0) → ℕ → Result (S × Bytes) → Type 0
Keeps {S} P n = Ensures (λ (p : S × Bytes). P p.0 × (length p.1 ≤ n))

pub for_count-Keeps :
    {S : Type 0} (P : S → Type 0) (k : ℕ) (body : S → Reader S) (n : ℕ)
    → ((s : S) (bs : Bytes) → P s → length bs ≤ n → Keeps P n (body s bs))
    → (s : S) (bs : Bytes) → P s
    → length bs ≤ n
    → Keeps P n (for_count k body s bs)
unfolding for_count
for_count-Keeps P zero body n each s bs p h = returns (p, h)
for_count-Keeps P (suc k) body n each s bs p h =
    Ensures-bind (each s bs p h)
      (λ (s', rest) (p', small). for_count-Keeps P k body n each s' rest p' small)

-- `x ← read; pure (f x)`
pub then_pure :
    {A B : Type 0} (read : Reader A) (f : A → B) (bs : Bytes) (n : ℕ)
    → Leaves n (read bs)
    → Leaves n (Reader.◌>>=◌ read (λ v. Reader.pure (f v)) bs)
then_pure read f bs n h = Ensures-bind h (λ (v, rest) small. returns small)

pub entry-Leaves :
    {S : Type 0} (field : Bytes → S → Reader S) (n : ℕ)
    → ((key : Bytes) (s : S) (bs : Bytes) → length bs ≤ n → Leaves n (field key s bs))
    → (s : S) (bs : Bytes) → length bs ≤ n
    → Leaves n (entry field s bs)
unfolding entry
entry-Leaves field n each s bs h =
    Ensures-bind (text-Leaves bs n h) (λ (key, rest) small. each key s rest small)

node_field-Leaves :
    (n : ℕ) (key : Bytes) (s : DerpNode) (bs : Bytes)
    → length bs ≤ n
    → Leaves n (node_field key s bs)
unfolding node_field
node_field-Leaves n key s bs h =
    Leaves-if (bytes_eq key (codes "n")) _ _ bs n (then_pure text _ bs n t) (
      Leaves-if (bytes_eq key (codes "i")) _ _ bs n (then_pure integer _ bs n i) (
        Leaves-if (bytes_eq key (codes "h")) _ _ bs n (then_pure text _ bs n t) (
          Leaves-if (bytes_eq key (codes "t")) _ _ bs n (then_pure text _ bs n t) (
            Leaves-if (bytes_eq key (codes "4")) _ _ bs n (then_pure text _ bs n t) (
              Leaves-if (bytes_eq key (codes "6")) _ _ bs n (then_pure text _ bs n t) (
                Leaves-if (bytes_eq key (codes "s")) _ _ bs n (then_pure integer _ bs n i) (
                  Leaves-if (bytes_eq key (codes "d")) _ _ bs n (then_pure integer _ bs n i) (
                    Leaves-if (bytes_eq key (codes "x")) _ _ bs n
                      (then_pure boolean _ bs n (boolean-Leaves bs n h))
                      (then_pure skip _ bs n (skip-Leaves bs n h))))))))))
  where
    t : Leaves n (text bs)
    t = text-Leaves bs n h

    i : Leaves n (integer bs)
    i = integer-Leaves bs n h

read_node-Leaves : (bs : Bytes) (n : ℕ) → length bs ≤ n → Leaves n (read_node bs)
unfolding read_node
read_node-Leaves bs n h = Ensures-bind (map_size-Leaves bs n h) (λ (count, rest) small.
    for_count-Leaves count (entry node_field) n (entry-Leaves node_field n (node_field-Leaves n))
      default_node rest small)

pub push_node-Leaves :
    (n : ℕ) (r : DerpRegion) (bs : Bytes) → length bs ≤ n → Leaves n (push_node r bs)
unfolding push_node
push_node-Leaves n r bs h = then_pure read_node _ bs n (read_node-Leaves bs n h)
