-- ===== src/Cli/Serve/Accepted.antt =====
-- The options that run_serve of src/cli.cpp starts a server with.
use tailcat_in_c.Common.{
  ℕ, ◌<◌, ◌≤◌, ltb, ◌==◌, ◌≡◌, refl, subst, Bool, true, false, ◌&&◌, ◌||◌, not, ◌⊎◌, inl, inr, List,
  [], ◌∷◌, Bytes, codes, bytes_eq, bytes_eq_sound, starts_with, empty, get_or, drop, if-cases, Each,
  Each-append, ok, throw_if-ok, >>=-ok, ok-injective, arith,
}
use tailcat_in_c.Cli.{stoul, checked_port, parse_port}
use tailcat_in_c.Cli.Serve.{
  ServeOptions, parse_allow_list, set_allow, takes_value, set_value, set_option, options_loop,
  has_port, no_ports, check_options, serve_options,
}

abbrev pub IsPort : ℕ → Type 0
IsPort port = (0 < port) × (port ≤ 65535)

checked_port-IsPort :
    (value port : ℕ) (rest : Bytes) → checked_port (value, rest) ≡ ok port → IsPort port
checked_port-IsPort value port rest e =
    let valid = throw_if-ok (not (empty rest) || (value == 0 || ltb 65535 value)) _ e in
    subst IsPort (ok-injective valid.1) (ground arith, ground arith)

pub parse_port-IsPort : (text : Bytes) (port : ℕ) → parse_port text ≡ ok port → IsPort port
unfolding parse_port
parse_port-IsPort text port e =
    let some_text = throw_if-ok (empty text) _ e in
    let found = >>=-ok (stoul text) some_text.1 in
    checked_port-IsPort (found.0.0) port (found.0.1) found.2

-- `no-auth-ssh` is among the arguments.
abbrev pub AsksNoAuth : List Bytes → Type 0
AsksNoAuth [] = ⊥
AsksNoAuth (arg ∷ args) = (arg ≡ codes "no-auth-ssh") ⊎ AsksNoAuth args

-- What an argument makes of the options: ports stay ports, and the server without authentication has
-- been asked for.
record Follows (asked : Type 0) (o r : ServeOptions) : Type 0 where
  ports : Each IsPort o.ports → Each IsPort r.ports
  no_auth : r.no_auth_ssh_service ≡ true → (o.no_auth_ssh_service ≡ true) ⊎ asked

set_allow-Follows :
    (asked : Type 0) (spec : Bytes) (o r : ServeOptions)
    → set_allow spec o ≡ ok r
    → Follows asked o r
set_allow-Follows asked spec o r e =
    let keys = >>=-ok (parse_allow_list spec) e in
    subst (Follows asked o) (ok-injective keys.2) (record { ports = λ h. h; no_auth = λ h. inl h })

set_value-Follows :
    (asked : Type 0) (arg value : Bytes) (o r : ServeOptions)
    → set_value arg value o ≡ ok r
    → Follows asked o r
unfolding set_value
set_value-Follows asked arg value o r e = elim (if-cases (bytes_eq arg (codes "--allow")) e) [
  | inl (_, f) ↦ set_allow-Follows asked value o r f
  | inr (_, f) ↦
      subst (Follows asked o) (ok-injective f) (record { ports = λ h. h; no_auth = λ h. inl h })
]

set_option-Follows :
    (arg : Bytes) (o r : ServeOptions)
    → set_option arg o ≡ ok r
    → Follows (arg ≡ codes "no-auth-ssh") o r
unfolding set_option
set_option-Follows arg o r e = elim (if-cases (bytes_eq arg (codes "--psk=false")) e) [
  | inl (_, f) ↦
      subst (Follows _ o) (ok-injective f) (record { ports = λ h. h; no_auth = λ h. inl h })
  | inr (_, e1) ↦ elim (if-cases (bytes_eq arg (codes "--psk=true")) e1) [
    | inl (_, f) ↦
        subst (Follows _ o) (ok-injective f) (record { ports = λ h. h; no_auth = λ h. inl h })
    | inr (_, e2) ↦ elim (if-cases (starts_with arg (codes "--allow=")) e2) [
      | inl (_, f) ↦ set_allow-Follows _ (drop 8 arg) o r f
      | inr (_, e3) ↦ elim (if-cases (starts_with arg (codes "--ssh-authorized-keys=")) e3) [
        | inl (_, f) ↦
            subst (Follows _ o) (ok-injective (throw_if-ok (empty (drop 22 arg)) _ f).1)
              (record { ports = λ h. h; no_auth = λ h. inl h })
        | inr (_, e4) ↦ elim (if-cases (bytes_eq arg (codes "ssh")) e4) [
          | inl (_, f) ↦
              subst (Follows _ o) (ok-injective f) (record { ports = λ h. h; no_auth = λ h. inl h })
          | inr (_, e5) ↦ elim (if-cases (bytes_eq arg (codes "no-auth-ssh")) e5) [
            | inl (named, f) ↦
                subst (Follows _ o) (ok-injective f)
                  (record { ports = λ h. h; no_auth = λ h. inr (bytes_eq_sound arg _ named) })
            | inr (_, e6) ↦ elim (if-cases (not (empty arg) && get_or arg 0 0 == b'-') e6) [
              | inl (_, f) ↦ absurd (cc)
              | inr (_, f) ↦
                  let port = >>=-ok (parse_port arg) f in
                  subst (Follows _ o) (ok-injective port.2) (record {
                    ports = λ h.
                        Each-append IsPort o.ports _ h (parse_port-IsPort arg port.0 port.1, tt);
                    no_auth = λ h. inl h;
                  })
            ]
          ]
        ]
      ]
    ]
  ]
]

after :
    (asked more : Type 0) (o p r : ServeOptions)
    → Follows asked o p
    → Follows more p r
    → Follows (asked ⊎ more) o r
after asked more o p r h k = record {
  ports = λ ports. k.ports (h.ports ports);
  no_auth = λ e. elim (k.no_auth e) [
    | inr later ↦ inr (inr later)
    | inl before ↦ elim (h.no_auth before) [ inl at_first ↦ inl at_first | inr now ↦ inr (inl now) ]
  ];
}

weaker :
    (asked more : Type 0) (o r : ServeOptions)
    → (asked → more)
    → Follows asked o r
    → Follows more o r
weaker asked more o r k h = record {
  ports = h.ports;
  no_auth = λ e. elim (h.no_auth e) [ inl b ↦ inl b | inr a ↦ inr (k a) ];
}

options_loop-Follows :
    (args : List Bytes) (o r : ServeOptions)
    → options_loop args o ≡ ok r
    → Follows (AsksNoAuth args) o r
unfolding options_loop
options_loop-Follows [] o r e =
    subst (Follows ⊥ o) (ok-injective e) (record { ports = λ h. h; no_auth = λ h. inl h })
options_loop-Follows (arg ∷ []) o r e = elim (if-cases (takes_value arg) e) [
  | inl (_, f) ↦ absurd (cc)
  | inr (_, f) ↦ weaker _ _ o r (λ now. inl now) (set_option-Follows arg o r f)
]
options_loop-Follows (arg ∷ value ∷ args) o r e = elim (if-cases (takes_value arg) e) [
  | inl (_, f) ↦
      let first = >>=-ok (set_value arg value o) f in
      weaker _ _ o r (λ a. inr (inr a))
        (weaker (⊥ ⊎ AsksNoAuth args) _ o r (λ a. elim a [ inl b ↦ absurd b | inr b ↦ b ])
          (after ⊥ (AsksNoAuth args) o first.0 r (set_value-Follows ⊥ arg value o first.0 first.1)
            (options_loop-Follows args first.0 r first.2)))
  | inr (_, f) ↦
      let first = >>=-ok (set_option arg o) f in
      after _ _ o first.0 r (set_option-Follows arg o first.0 first.1)
        (options_loop-Follows (value ∷ args) first.0 r first.2)
]

not_both : (a b : Bool) → (a && b) ≡ false → b ≡ true → a ≡ false
not_both true b e on = absurd (cc)
not_both false b e on = refl

neither : (a b c : Bool) → ((a || b) && c) ≡ false → c ≡ true → (a ≡ false) × (b ≡ false)
neither true b c e on = absurd (cc)
neither false true c e on = absurd (cc)
neither false false c e on = (refl, refl)

one_of : (a b c : Bool) → (not a && (not b && c)) ≡ false → (a ≡ true) ⊎ ((b ≡ true) ⊎ (c ≡ false))
one_of true b c e = inl refl
one_of false true c e = inr (inl refl)
one_of false false c e = inr (inr e)

implied : (a b : Bool) → (a && b) ≡ false → a ≡ true → b ≡ false
implied true b e on = e
implied false b e on = absurd (cc)

-- The options that a server is started with.
pub record IsServe (args : List Bytes) (o : ServeOptions) : Type 0 where
  pub ports : Each IsPort o.ports
  pub no_auth : o.no_auth_ssh_service ≡ true → AsksNoAuth args × (o.ssh_service ≡ false)
  pub ssh : o.ssh_service ≡ true → empty o.ssh_authorized_key_sources ≡ false
  pub port_22 :
      has_port 22 o.ports ≡ true → (o.ssh_service ≡ false) × (o.no_auth_ssh_service ≡ false)
  pub something :
      (o.ssh_service ≡ true) ⊎ ((o.no_auth_ssh_service ≡ true) ⊎ (no_ports o.ports ≡ false))

-- If run_serve comes past its checks, its ports are between 1 and 65535; SSH without authentication
-- is served only if no-auth-ssh is among the arguments, and not together with the ssh service; the
-- ssh service has a source of authorized keys; port 22 is not among the ports with either; and
-- there is a service or a port.
pub serve_options-IsServe :
    (args : List Bytes) (o : ServeOptions) → serve_options args ≡ ok o → IsServe args o
unfolding serve_options check_options
serve_options-IsServe args o e =
    let found = >>=-ok (options_loop args _) e in
    let p = found.0 in
    let given =
      throw_if-ok (not p.ssh_service && (not p.no_auth_ssh_service && no_ports p.ports)) _
        found.2 in
    let single = throw_if-ok (p.ssh_service && p.no_auth_ssh_service) _ given.1 in
    let sourced = throw_if-ok (p.ssh_service && empty p.ssh_authorized_key_sources) _ single.1 in
    let unused =
      throw_if-ok (p.no_auth_ssh_service && not (empty p.ssh_authorized_key_sources)) _ sourced.1 in
    let without =
      throw_if-ok (not p.ssh_service && not (empty p.ssh_authorized_key_sources)) _ unused.1 in
    let distinct =
      throw_if-ok ((p.ssh_service || p.no_auth_ssh_service) && has_port 22 p.ports) _ without.1 in
    let follows = options_loop-Follows args _ p found.1 in
    subst (IsServe args) (ok-injective distinct.1) (record {
      ports = follows.ports tt;
      no_auth = λ on. (
        elim (follows.no_auth on) [ inl off ↦ absurd (cc) | inr asked ↦ asked ],
        not_both p.ssh_service p.no_auth_ssh_service single.0 on,
      );
      ssh = λ on. implied p.ssh_service (empty p.ssh_authorized_key_sources) sourced.0 on;
      port_22 = λ listed.
          neither p.ssh_service p.no_auth_ssh_service (has_port 22 p.ports) distinct.0 listed;
      something = one_of p.ssh_service p.no_auth_ssh_service (no_ports p.ports) given.0;
    })
