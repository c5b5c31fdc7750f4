-- ===== src/Socks/Host.antt =====
-- The host's side of a SOCKS connection: HostTcpStream as the handshake of src/socks_command.cpp uses it.
use Prim.Native.String.{String}
use tailcat_in_c.Common.{
  ℕ, zero, suc, ◌+◌, ◌-◌, ◌≤◌, ◌≡◌, ◌≢◌, refl, sym, subst, ap, Bool, true, false, Bool-cases, inl,
  inr, List, [], ◌∷◌, ◌++◌, append-nil, append_assoc, Option, none, some, arith, Bytes, empty,
  length, length-append, length-take, take, drop, take-append-drop, ltb, leb, ◌==◌, if◌then◌else◌,
  if-holds, Result, ok, runtime_error, out_of_fuel, runtime-ne, Run, done, throw, and_then, After,
  Triple, done-Triple, throw-Triple, if-Triple, weaken-Triple, and_then-Triple,
}

-- `pieces` is what the peer sends, cut as recv hands it over; none is empty. Behind the last is the end of
-- the stream, or, where `failure` is there, recv fails by it. `written` is what was written, the latest first.
pub record Host : Type 0 where
  pub pieces : List Bytes
  pub failure : Option String
  pub written : List Bytes
  pub closed : Bool

abbrev pub at_end : Option String → Run Host Bytes
at_end none = done []
at_end (some failure) = throw (runtime_error failure)

abbrev pub next_piece : ℕ → List Bytes → Run Host Bytes
next_piece size [] host = at_end host.failure host
next_piece size (piece ∷ rest) host = (
  ok (take size piece),
  record host { pieces = if leb (length piece) size then rest else drop size piece ∷ rest },
)

-- HostTcpStream::read_some: up to `size` bytes of the next piece; nothing at the end. A handshake asks
-- for 255 bytes at most, so the bound INT_MAX is left out.
unfoldable pub read_some : ℕ → Run Host Bytes
read_some size host =
    if host.closed
    then throw (runtime_error "read from closed host TCP socket") host
    else if size == 0
    then done [] host
    else next_piece size host.pieces host

-- The loop of read_exact; each round reads a byte at least.
unfoldable pub read_loop : ℕ → ℕ → Bytes → Run Host Bytes
read_loop zero size out = if ltb (length out) size then throw out_of_fuel else done out
read_loop (suc fuel) size out =
    if ltb (length out) size
    then and_then (read_some (size - length out)) (λ part.
      if empty part
      then throw (runtime_error "unexpected EOF in SOCKS5 handshake")
      else read_loop fuel size (out ++ part))
    else done out

unfoldable pub read_exact : ℕ → Run Host Bytes
read_exact size = read_loop size size []

unfoldable pub close : Run Host (Unit {0})
close host = (ok tt, record host { closed = true })

abbrev pub log_write : (List Bytes → Result (Unit {0})) → Bytes → Run Host (Unit {0})
log_write answers bytes host =
    (answers (bytes ∷ host.written), record host { written = bytes ∷ host.written })

-- A write may throw, by `answers` of all that was written so far.
unfoldable pub write_all : (List Bytes → Result (Unit {0})) → Bytes → Run Host (Unit {0})
write_all answers bytes host =
    if host.closed
    then throw (runtime_error "write to closed host TCP socket") host
    else log_write answers bytes host

-- What the peer sends from here on.
abbrev pub unread : List Bytes → Bytes
unread [] = []
unread (piece ∷ pieces) = piece ++ unread pieces

-- The connection is open, `ws` was written, and `seen` of `input` was read.
pub record IsOpen (input : Bytes) (ws : List Bytes) (seen : Bytes) (host : Host) : Type 0 where
  pub written : host.written ≡ ws
  pub unclosed : host.closed ≡ false
  pub read : input ≡ seen ++ unread host.pieces

take-all : (n : ℕ) (xs : Bytes) → length xs ≤ n → take n xs ≡ xs
take-all zero [] h = refl
take-all zero (x ∷ xs) h = absurd (omega arith)
take-all (suc n) [] h = refl
take-all (suc n) (x ∷ xs) h = rw (take-all n xs (omega arith))

unread-rest :
    (size : ℕ) (piece : Bytes) (rest : List Bytes)
    → take size piece ++ unread (if leb (length piece) size then rest else drop size piece ∷ rest)
      ≡ piece ++ unread rest
unread-rest size piece rest = elim (Bool-cases (leb (length piece) size)) [
  | inl whole ↦ rw whole (ap (λ b. b ++ unread rest) (take-all size piece (ground arith)))
  | inr cut ↦
      rw
        (
          cut,
          sym (append_assoc (take size piece) (drop size piece) (unread rest)),
          take-append-drop size piece,
        )
        refl
]

module _ (input : Bytes) (ws : List Bytes) where
  -- What a read leaves: at most `size` bytes more were read.
  abbrev Reads : Bytes → ℕ → Bytes → Host → Type 0
  Reads seen size part s = (length part ≤ size) × IsOpen input ws (seen ++ part) s

  next_piece-After :
      (size : ℕ) (seen : Bytes) (pieces : List Bytes) (s : Host)
      → s.pieces ≡ pieces
      → IsOpen input ws seen s
      → After (Reads seen size) (λ e. e ≢ out_of_fuel) (next_piece size pieces s)
  unfolding done throw
  next_piece-After size seen [] s e h = ended s.failure
    where
      ended :
          (failure : Option String)
          → After (Reads seen size) (λ e. e ≢ out_of_fuel) (at_end failure s)
      ended none = (
        omega arith,
        record { written = h.written; unclosed = h.unclosed; read = rw (append-nil seen) h.read },
      )
      ended (some failure) = runtime-ne
  next_piece-After size seen (piece ∷ rest) s e h = (
    omega (arith, length-take size piece),
    record {
      written = h.written;
      unclosed = h.unclosed;
      read =
          rw (append_assoc seen (take size piece) _, unread-rest size piece rest)
            (subst (λ pieces. input ≡ seen ++ unread pieces) e h.read);
    },
  )

  read_some-Triple :
      (size : ℕ) (seen : Bytes)
      → Triple (IsOpen input ws seen) (read_some size) (Reads seen size) (λ e. e ≢ out_of_fuel)
  unfolding read_some done throw
  read_some-Triple size seen = record {
    runs = λ s h.
        if-holds (After (Reads seen size) (λ e. e ≢ out_of_fuel)) s.closed (λ _. runtime-ne)
          (λ _.
            if-holds (After (Reads seen size) (λ e. e ≢ out_of_fuel)) (size == 0) (λ _. nothing s h)
              (λ _. next_piece-After size seen s.pieces s refl h));
  }
    where
      nothing :
          (s : Host)
          → IsOpen input ws seen s
          → After (Reads seen size) (λ e. e ≢ out_of_fuel) (done [] s)
      nothing s h = (
        omega arith,
        record { written = h.written; unclosed = h.unclosed; read = rw (append-nil seen) h.read },
      )

  weaker :
      (fuel size : ℕ) (out part : Bytes)
      → length part ≤ size - length out
      → length out ≤ size
      → empty part ≡ false
      → size ≤ length out + suc fuel
      → (length (out ++ part) ≤ size) × (size ≤ length (out ++ part) + fuel)
  weaker fuel size out [] small fits some_read enough = cc
  weaker fuel size out (b ∷ part) small fits some_read enough =
      (omega (arith, length-append out (b ∷ part)), omega (arith, length-append out (b ∷ part)))

  -- What a whole read leaves: `size` bytes more were read.
  abbrev pub HasRead : Bytes → ℕ → Bytes → Host → Type 0
  HasRead seen size bytes s = (length bytes ≡ size) × IsOpen input ws (seen ++ bytes) s

  read_loop-Triple :
      (fuel size : ℕ) (seen out : Bytes)
      → length out ≤ size
      → size ≤ length out + fuel
      → Triple
          (IsOpen input ws (seen ++ out))
          (read_loop fuel size out)
          (HasRead seen size)
          (λ e. e ≢ out_of_fuel)
  unfolding read_loop
  read_loop-Triple zero size seen out small enough =
      if-Triple (ltb (length out) size) (λ more. absurd (ground arith))
        (λ full. done-Triple out (λ s h. (ground arith, h)))
  read_loop-Triple (suc fuel) size seen out small enough =
      if-Triple (ltb (length out) size)
        (λ more.
          and_then-Triple (Reads (seen ++ out) (size - length out))
            (read_some-Triple (size - length out) (seen ++ out))
            (λ part.
              if-Triple (empty part) (λ _. throw-Triple _ runtime-ne)
                (λ some_read. record {
                  runs = λ s (short, h).
                      let (fits, left) = weaker fuel size out part short small some_read enough in
                      (read_loop-Triple fuel size seen (out ++ part) fits left).runs s
                        (subst (λ read. IsOpen input ws read s) (append_assoc seen out part) h);
                })))
        (λ full. done-Triple out (λ s h. (ground arith, h)))

  -- read_exact ends, by exactly as many bytes as it was asked for, the next of what the peer sends, or
  -- by an exception of the program, however the stream is cut and wherever recv fails; it writes and
  -- closes nothing.
  pub read_exact-Triple :
      (size : ℕ) (seen : Bytes)
      → Triple (IsOpen input ws seen) (read_exact size) (HasRead seen size) (λ e. e ≢ out_of_fuel)
  unfolding read_exact
  read_exact-Triple size seen =
      weaken-Triple (λ s h. subst (λ read. IsOpen input ws read s) (sym (append-nil seen)) h)
        (read_loop-Triple size size seen [] (omega arith) (omega arith))
