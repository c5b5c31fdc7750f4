-- ===== src/Socks/Handshake/Request.antt =====
-- What a peer sends whose request the handshake grants, and how the parts of it are put together.
use tailcat_in_c.Common.{
  ℕ, ◌+◌, ◌*◌, ◌%◌, ◌<◌, ◌^◌, bit_or_disjoint, ◌==◌, ==_iff, ◌≡◌, refl, sym, ◌∙◌, subst, ap, Bool,
  true, false, ◌&&◌, ◌||◌, not, ◌⊎◌, inl, inr, [], ◌∷◌, ◌++◌, append_assoc, arith, Bytes, IsBytes,
  length, codes, bytes_eq, bytes_eq_sound, contains, get_or,
}
use tailcat_in_c.Socks.Handshake.{port_of, lower_ascii, dotted}

-- The address of a request, by its kind, and the host that it names.
pub data Addressed : Bytes → Bytes → Type 0 where
  ipv4 : (a b c d : ℕ) → Addressed (1 ∷ a ∷ b ∷ c ∷ d ∷ []) (dotted (a ∷ b ∷ c ∷ d ∷ []))
  named : (name : Bytes) → Addressed (3 ∷ length name ∷ name) name
  ipv6 : (address : Bytes) → length address ≡ 16 → Addressed (4 ∷ address) (codes "<ipv6>")

-- The bytes of a greeting, and those of a CONNECT request up to the port.
abbrev pub greeting_bytes : Bytes → Bytes
greeting_bytes methods = 5 ∷ length methods ∷ methods

abbrev pub connect_bytes : Bytes → Bytes
connect_bytes address = 5 ∷ 1 ∷ 0 ∷ address

-- What a peer has sent whose request is granted: a greeting that offers to do without authentication, and
-- a CONNECT request to a port of the server, with the port's high byte first.
pub record Requests (server_address input : Bytes) (port : ℕ) : Type 0 where
  pub methods : Bytes
  pub address : Bytes
  pub target : Bytes
  pub rest : Bytes
  pub high : ℕ
  pub low : ℕ
  pub sent : input ≡ (greeting_bytes methods ++ connect_bytes address) ++ (high ∷ low ∷ rest)
  pub offered : contains 0 methods ≡ true
  pub addressed : Addressed address target
  pub to_server : (lower_ascii target ≡ codes "server.tailcat") ⊎ (target ≡ server_address)
  pub port_bytes : port ≡ high * 256 + low

single : (bytes : Bytes) → length bytes ≡ 1 → bytes ≡ get_or bytes 0 0 ∷ []
single [] l = absurd (omega arith)
single (a ∷ []) l = refl
single (a ∷ b ∷ bytes) l = absurd (omega arith)

pub pair : (bytes : Bytes) → length bytes ≡ 2 → bytes ≡ get_or bytes 0 0 ∷ get_or bytes 1 0 ∷ []
pair [] l = absurd (omega arith)
pair (a ∷ bytes) l = ap (λ b. a ∷ b) (single bytes (omega arith))

pub four :
    (bytes : Bytes)
    → length bytes ≡ 4
    → bytes ≡ get_or bytes 0 0 ∷ get_or bytes 1 0 ∷ get_or bytes 2 0 ∷ get_or bytes 3 0 ∷ []
four [] l = absurd (omega arith)
four (a ∷ []) l = absurd (omega arith)
four (a ∷ b ∷ bytes) l = ap (λ p. a ∷ b ∷ p) (pair bytes (omega arith))

pub IsBytes-behind : (xs ys : Bytes) → IsBytes (xs ++ ys) → IsBytes ys
IsBytes-behind [] ys h = h
IsBytes-behind (x ∷ xs) ys h = IsBytes-behind xs ys h.1

pub port_of_lem :
    (high low : ℕ) → high < 256 → low < 256 → port_of (high ∷ low ∷ []) ≡ high * 256 + low
unfolding port_of
port_of_lem high low h l =
    let small : high * 2 ^ 8 % 2 ^ 32 ≡ high * 2 ^ 8 = omega arith in
    rw (small, bit_or_disjoint 8 high low l) (omega arith)

pub port_of-lt : (bytes : Bytes) → port_of bytes < 2 ^ 16
unfolding port_of
port_of-lt bytes = omega arith

pub address_bytes :
    (methods bytes : Bytes) (kind expected : ℕ)
    → (kind == expected) ≡ true
    → ((greeting_bytes methods ++ connect_bytes (kind ∷ [])) ++ bytes)
      ≡ greeting_bytes methods ++ connect_bytes (expected ∷ bytes)
address_bytes methods bytes kind expected e =
    rw ((==_iff kind expected).0 e)
      (append_assoc (greeting_bytes methods) (connect_bytes (expected ∷ [])) bytes)

pub name_bytes :
    (methods size name : Bytes) (kind : ℕ)
    → (kind == 3) ≡ true
    → length size ≡ 1
    → length name ≡ get_or size 0 0
    → (((greeting_bytes methods ++ connect_bytes (kind ∷ [])) ++ size) ++ name)
      ≡ greeting_bytes methods ++ connect_bytes (3 ∷ length name ∷ name)
name_bytes methods size name kind e l n =
    ap (λ b. b ++ name) (address_bytes methods size kind 3 e)
    ∙ (append_assoc (greeting_bytes methods) (connect_bytes (3 ∷ size)) name
        ∙ ap (λ b. greeting_bytes methods ++ connect_bytes (3 ∷ (b ++ name)))
            (subst (λ k. size ≡ k ∷ []) (sym n) (single size l)))

pub header_bytes :
    (header : Bytes)
    → length header ≡ 4
    → (not (get_or header 0 0 == 5) || not (get_or header 2 0 == 0)) ≡ false
    → not (get_or header 1 0 == 1) ≡ false
    → header ≡ connect_bytes (get_or header 3 0 ∷ [])
header_bytes header l version connects =
    let v : get_or header 0 0 ≡ 5 = ground arith in
    let r : get_or header 2 0 ≡ 0 = ground arith in
    let c : get_or header 1 0 ≡ 1 = ground arith in
    subst (λ x. header ≡ x ∷ 1 ∷ 0 ∷ get_or header 3 0 ∷ []) v
      (subst (λ x. header ≡ get_or header 0 0 ∷ x ∷ 0 ∷ get_or header 3 0 ∷ []) c
        (subst (λ x. header ≡ get_or header 0 0 ∷ get_or header 1 0 ∷ x ∷ get_or header 3 0 ∷ []) r
          (four header l)))

pub offer_bytes :
    (greeting methods : Bytes)
    → length greeting ≡ 2
    → (not (get_or greeting 0 0 == 5) || get_or greeting 1 0 == 0) ≡ false
    → length methods ≡ get_or greeting 1 0
    → (greeting ++ methods) ≡ greeting_bytes methods
offer_bytes greeting methods l version n =
    let v : get_or greeting 0 0 ≡ 5 = ground arith in
    ap (λ b. b ++ methods)
      (subst (λ x. greeting ≡ x ∷ length methods ∷ []) v
        (subst (λ x. greeting ≡ get_or greeting 0 0 ∷ x ∷ []) (sym n) (pair greeting l)))

either : (a b : Bool) → (not a && not b) ≡ false → (a ≡ true) ⊎ (b ≡ true)
either true b e = inl refl
either false true e = inr refl
either false false e = absurd (cc)

pub to_server_lem :
    (server_address target : Bytes)
    → (not (bytes_eq (lower_ascii target) (codes "server.tailcat"))
        && not (bytes_eq target server_address))
      ≡ false
    → (lower_ascii target ≡ codes "server.tailcat") ⊎ (target ≡ server_address)
to_server_lem server_address target e = elim (either _ _ e) [
  | inl by_name ↦ inl (bytes_eq_sound _ _ by_name)
  | inr by_address ↦ inr (bytes_eq_sound _ _ by_address)
]
