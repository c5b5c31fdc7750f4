-- ===== src/Derp/Client/Laws.antt =====
-- Packets and information that one side makes, read by the other.
use tailcat_in_c.Common.{
  ℕ, ◌≤◌, ◌≡◌, refl, sym, ap, ap₂, ◌∙◌, Bool, true, false, inl, inr, [], ◌∷◌, ◌++◌, Option, none,
  some, arith, Bytes, length, length-append, take, drop, take-append-drop, take-append, drop-append,
  length-take, ltb, leb, ◌==◌, ==_iff, if◌then◌else◌, if-cases, Bool-cases, ◌&&◌, not, empty, codes,
  List, append_assoc, ok, ok-injective, throw_if-ok, ◌>>=◌,
}
use tailcat_in_c.Derp.Client.{
  derp_max_packet, printable, valid_app_name, escape, client_info_json, make_derp_send_packet,
  parse_derp_recv_packet,
}

-- What an escape of RFC 8259 stands for, by the character behind the backslash; \u is left out.
abbrev json_escapes : List (ℕ × ℕ)
json_escapes =
    (b'"', b'"')
    ∷ (b'\\', b'\\')
    ∷ (b'/', b'/')
    ∷ (b'b', 8)
    ∷ (b'f', 12)
    ∷ (b'n', 10)
    ∷ (b'r', 13)
    ∷ (b't', 9)
    ∷ []

abbrev among_escapes : List (ℕ × ℕ) → ℕ → Option ℕ
among_escapes [] c = none
among_escapes ((written, meant) ∷ escapes) c =
    if c == written then some meant else among_escapes escapes c

abbrev prepend : Option ℕ → Option (Bytes × Bytes) → Option (Bytes × Bytes)
prepend none read = none
prepend (some x) none = none
prepend (some x) (some (s, rest)) = some (x ∷ s, rest)

-- What a reader of JSON makes of the characters behind an opening quote: the string, and the text
-- behind the closing one. The flag says that a backslash was read. Other escapes and control
-- characters are refused.
unfoldable pub json_string : Bool → Bytes → Option (Bytes × Bytes)
json_string e [] = none
json_string true (c ∷ cs) = prepend (among_escapes json_escapes c) (json_string false cs)
json_string false (c ∷ cs) =
    let plain = json_string false cs in
    let escaped = json_string true cs in
    if c == b'"'
    then some ([], cs)
    else if c == b'\\'
    then escaped
    else if ltb c 0x20
    then none
    else prepend (some c) plain

json_string-escape :
    (s rest : Bytes)
    → printable s ≡ true
    → json_string false (escape s ++ (b'"' ∷ rest)) ≡ some (s, rest)
unfolding json_string escape printable
json_string-escape [] rest h = refl
json_string-escape (c ∷ cs) rest h = elim (if-cases (leb 0x20 c && leb c 0x7e) h) [
  | inr (_, f) ↦ absurd (cc)
  | inl (range, more) ↦
      let ih = json_string-escape cs rest more in
      let visible : ltb c 0x20 ≡ false = ground arith in
      elim (Bool-cases (c == b'\\')) [
        | inl slash ↦ rw slash (rw ((==_iff c b'\\').0 slash, ih))
        | inr other ↦ elim (Bool-cases (c == b'"')) [
          | inl quote ↦ rw (other, quote) (rw ((==_iff c b'"').0 quote, ih))
          | inr plain ↦ rw (other, plain, plain, other, visible, ih)
        ]
      ]
]

-- The information up to the name.
abbrev pub before_name : Bool → Bytes
before_name can_ack_pings =
    codes "{\"version\":2,\"CanAckPings\":"
    ++ ((if can_ack_pings then codes "true" else codes "false") ++ codes ",\"AppName\":\"")

valid_app_name_lem :
    (name : Bytes) → valid_app_name name ≡ true → (printable name ≡ true) × (length name ≤ 32)
unfolding valid_app_name
valid_app_name_lem name e = elim (if-cases (ltb 32 (length name)) e) [
  | inl (long, f) ↦ absurd (cc)
  | inr (short, shown) ↦ (shown, ground arith)
]

named_json :
    (name : Bytes) (can_ack_pings : Bool)
    → empty name ≡ false
    → (codes "{\"version\":2,\"CanAckPings\":"
        ++ ((if can_ack_pings then codes "true" else codes "false")
            ++ ((if empty name
                  then []
                  else (codes ",\"AppName\":\"" ++ (escape name ++ codes "\"")))
                ++ codes "}")))
      ≡ before_name can_ack_pings ++ (escape name ++ codes "\"}")
named_json name true given =
    rw given (ap (λ t. before_name true ++ t) (append_assoc (escape name) (codes "\"") (codes "}")))
named_json name false given =
    rw given
      (ap (λ t. before_name false ++ t) (append_assoc (escape name) (codes "\"") (codes "}")))

-- Where client_info_json returns for a name that is not empty, the name is printable and has 32
-- characters at most, and the text is the members that stand before the name, and a JSON string
-- that a reader of JSON, which knows the escapes of RFC 8259 but for the one of a code point and
-- refuses all others, reads as the name, with the closing brace behind it.
pub client_info_json-Names :
    (app_name : Bytes) (can_ack_pings : Bool) (json : Bytes)
    → client_info_json app_name can_ack_pings ≡ ok json
    → empty app_name ≡ false
    → (printable app_name ≡ true)
      × (length app_name ≤ 32)
      × (text : Bytes) × (json ≡ before_name can_ack_pings ++ text)
      × (json_string false text ≡ some (app_name, codes "}"))
unfolding client_info_json valid_app_name
client_info_json-Names app_name can_ack_pings json e given =
    let valid = throw_if-ok (not (valid_app_name app_name)) _ e in
    let (shown, short) = valid_app_name_lem app_name (ground arith) in
    (
      shown,
      short,
      escape app_name ++ codes "\"}",
      sym (ok-injective valid.1) ∙ named_json app_name can_ack_pings given,
      json_string-escape app_name (codes "}") shown,
    )

-- A packet of up to 64 KiB that make_derp_send_packet put behind a key of 32 bytes is read back
-- with the key by parse_derp_recv_packet.
pub parse_derp_recv_packet-make_derp_send_packet :
    (key packet s0 p0 : Bytes)
    → length key ≡ 32
    → length packet ≤ derp_max_packet
    → (make_derp_send_packet key packet >>= (λ payload. ok (parse_derp_recv_packet payload s0 p0)))
      ≡ ok (true, key, packet)
unfolding make_derp_send_packet parse_derp_recv_packet
parse_derp_recv_packet-make_derp_send_packet key packet s0 p0 hk hp =
    rw (small, room, first, second, fits)
  where
    small : ltb derp_max_packet (length packet) ≡ false
    small = ground arith

    room : ltb (length (key ++ packet)) 32 ≡ false
    room = ground (arith, length-append key packet)

    first : take 32 (key ++ packet) ≡ key
    first = ap (λ n. take n (key ++ packet)) (sym hk) ∙ take-append key packet

    second : drop 32 (key ++ packet) ≡ packet
    second = ap (λ n. drop n (key ++ packet)) (sym hk) ∙ drop-append key packet

    fits : leb (length packet) derp_max_packet ≡ true
    fits = ground arith

-- If parse_derp_recv_packet returns true, the payload is the source, of 32 bytes, and the packet
-- behind it, of up to 64 KiB.
pub parse_derp_recv_packet_sound :
    (payload s0 p0 source packet : Bytes)
    → parse_derp_recv_packet payload s0 p0 ≡ (true, source, packet)
    → (payload ≡ source ++ packet) × (length source ≡ 32) × (length packet ≤ derp_max_packet)
unfolding parse_derp_recv_packet
parse_derp_recv_packet_sound payload s0 p0 source packet e =
    elim (Bool-cases (ltb (length payload) 32)) [
      | inl short ↦ let impossible = ap (λ r. r.0) (rw short at e) in cc
      | inr long ↦
          let at_least : 32 ≤ length payload = ground arith in
          let e' = rw long at e in
          let first : take 32 payload ≡ source = ap (λ r. r.1) e' in
          let second : drop 32 payload ≡ packet = ap (λ r. r.2) e' in
          let fits : leb (length (drop 32 payload)) derp_max_packet ≡ true = ap (λ r. r.0) e' in
          (
            sym (take-append-drop 32 payload) ∙ ap₂ ◌++◌ first second,
            omega (arith, ap (length {0}) first, length-take 32 payload, at_least),
            ground (arith, ap (length {0}) second),
          )
    ]
