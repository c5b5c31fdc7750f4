-- ===== src/Relay/Accounts.antt =====
-- The bytes of a relayed connection of src/port_forward.cpp and src/local_forward.cpp: where each byte is
-- between the host and the tunnel, and the steps that keep this account.
use tailcat_in_c.Common.{
  ◌≤◌, ◌≡◌, refl, sym, ◌∙◌, ap, Bool, true, false, inl, inr, List, [], ◌∷◌, ◌++◌, append-nil,
  append_assoc, Bytes, empty, length, drop, Bool-cases, if-holds,
}
use tailcat_in_c.Lwip.{TcpApi, TcpStream, sent_bytes, delivered, close}
use tailcat_in_c.Lwip.Sending.{KeptBytes, close-bytes, close-write_closed}
use tailcat_in_c.Relay.{
  HostCall, bytes_read, bytes_written, Connection, HostApi, ReaderRound, returned, failed,
  reader_loop, reader_round, reader_rounds, close_both, close_host,
}

abbrev pub joined : List Bytes → Bytes
joined [] = []
joined (piece ∷ pieces) = piece ++ joined pieces

-- What is read of the host and not sent yet.
abbrev pub queue : Connection → Bytes
queue c = drop c.pending_offset c.pending_to_tunnel ++ joined c.host_read.chunks

abbrev pub AreFull : List Bytes → Type 0
AreFull [] = Unit
AreFull (piece ∷ pieces) = (empty piece ≡ false) × AreFull pieces

-- Every byte of the host is sent or still queued, in order; every byte that lwIP delivered is written
-- to the host or still in `received`, in order; writing ends behind the last byte of the host.
pub record IsRunning (c : Connection) : Type 0 where
  pub forth : sent_bytes c.tunnel.calls ++ queue c ≡ bytes_read c.host
  pub within : c.pending_offset ≤ length c.pending_to_tunnel
  pub pieces : AreFull c.host_read.chunks
  pub back : bytes_written c.host ++ c.tunnel.received ≡ delivered c.tunnel.calls
  pub ended : c.tunnel.write_closed ≡ true → (c.host_read.eof ≡ true) × (queue c ≡ [])

-- What holds behind an exception too: what was passed on is a beginning of what came in.
pub record IsSound (c : Connection) : Type 0 where
  pub forth : (rest : Bytes) × (sent_bytes c.tunnel.calls ++ rest ≡ bytes_read c.host)
  pub back : (rest : Bytes) × (bytes_written c.host ++ rest ≡ delivered c.tunnel.calls)
  pub ended :
      c.tunnel.write_closed ≡ true
      → (c.host_read.eof ≡ true) × (sent_bytes c.tunnel.calls ≡ bytes_read c.host)

pub running-IsSound : (c : Connection) → IsRunning c → IsSound c
running-IsSound c h = record {
  forth = (queue c, h.forth);
  back = (c.tunnel.received, h.back);
  ended = λ e. (
    (h.ended e).0,
    sym (append-nil _) ∙ ap (λ q. sent_bytes c.tunnel.calls ++ q) (sym (h.ended e).1) ∙ h.forth,
  );
}

pub append_to : (xs ys zs new : Bytes) → xs ++ ys ≡ zs → xs ++ (ys ++ new) ≡ zs ++ new
append_to xs ys zs new e = sym (append_assoc xs ys new) ∙ ap (λ l. l ++ new) e

joined-append :
    (pieces : List Bytes) (piece : Bytes) → joined (pieces ++ (piece ∷ [])) ≡ joined pieces ++ piece
joined-append [] piece = append-nil piece
joined-append (first ∷ pieces) piece =
    rw (joined-append pieces piece) (sym (append_assoc first (joined pieces) piece))

AreFull-append :
    (pieces : List Bytes) (piece : Bytes)
    → AreFull pieces
    → empty piece ≡ false
    → AreFull (pieces ++ (piece ∷ []))
AreFull-append [] piece h e = (e, tt)
AreFull-append (first ∷ pieces) piece h e = (h.0, AreFull-append pieces piece h.1 e)

reader_loop-IsRunning :
    (round : ReaderRound) (c : Connection)
    → c.host_read.eof ≡ false
    → IsRunning c
    → IsRunning (reader_loop round c)
unfolding bytes_read bytes_written
reader_loop-IsRunning (failed text) c e h = record {
  forth = h.forth;
  within = h.within;
  pieces = h.pieces;
  back = h.back;
  ended = λ k. (refl, (h.ended k).1);
}
reader_loop-IsRunning (returned piece) c e h = elim (Bool-cases (empty piece)) [
  | inl p ↦ rw p (record {
    forth = h.forth;
    within = h.within;
    pieces = h.pieces;
    back = h.back;
    ended = λ k. (refl, (h.ended k).1);
  })
  | inr p ↦ rw p (record {
    forth =
        rw
          (
            joined-append c.host_read.chunks piece,
            sym (
                append_assoc (drop c.pending_offset c.pending_to_tunnel) (joined c.host_read.chunks)
                  piece),
          )
          (append_to (sent_bytes c.tunnel.calls) (queue c) (bytes_read c.host) piece h.forth);
    within = h.within;
    pieces = AreFull-append _ piece h.pieces p;
    back = h.back;
    ended = λ k. absurd (cc ((h.ended k).0));
  })
]

pub reader_round-IsRunning :
    (round : ReaderRound) (c : Connection) → IsRunning c → IsRunning (reader_round round c)
unfolding reader_round
reader_round-IsRunning round c h =
    if-holds IsRunning c.host_read.eof (λ e. h) (λ e. reader_loop-IsRunning round c e h)

reader_loop-IsSound :
    (round : ReaderRound) (c : Connection)
    → c.host_read.eof ≡ false
    → IsSound c
    → IsSound (reader_loop round c)
unfolding bytes_read bytes_written
reader_loop-IsSound (failed text) c e h = record {
  forth = h.forth;
  back = h.back;
  ended = λ k. (refl, (h.ended k).1);
}
reader_loop-IsSound (returned piece) c e h = elim (Bool-cases (empty piece)) [
  | inl p ↦ rw p (record { forth = h.forth; back = h.back; ended = λ k. (refl, (h.ended k).1) })
  | inr p ↦ rw p (record {
    forth = (h.forth.0 ++ piece, append_to _ h.forth.0 (bytes_read c.host) piece h.forth.1);
    back = h.back;
    ended = λ k. absurd (cc ((h.ended k).0));
  })
]

pub reader_round-IsSound :
    (round : ReaderRound) (c : Connection) → IsSound c → IsSound (reader_round round c)
unfolding reader_round
reader_round-IsSound round c h =
    if-holds IsSound c.host_read.eof (λ e. h) (λ e. reader_loop-IsSound round c e h)

pub reader_rounds-IsRunning :
    (rounds : List ReaderRound) (c : Connection) → IsRunning c → IsRunning (reader_rounds rounds c)
unfolding reader_rounds
reader_rounds-IsRunning [] c h = h
reader_rounds-IsRunning (round ∷ rounds) c h =
    reader_rounds-IsRunning rounds (reader_round round c) (reader_round-IsRunning round c h)

-- A connection with another tunnel, and with more calls of the host that neither read nor write.
module _ (c : Connection) (tunnel : TcpStream) (same : KeptBytes c.tunnel tunnel)
    (calls : List HostCall) (hr : bytes_read calls ≡ bytes_read c.host)
    (hw : bytes_written calls ≡ bytes_written c.host) (f : Bool) where
  pub same-IsSound :
      tunnel.write_closed ≡ c.tunnel.write_closed
      → IsSound c
      → IsSound (record c { tunnel = tunnel; host = calls; finished = f })
  same-IsSound closed h = record {
    forth = (h.forth.0, rw (same.sent, hr) h.forth.1);
    back = (h.back.0, rw (hw, same.same.delivered) h.back.1);
    ended = λ k. rw (same.sent, hr) (h.ended (sym closed ∙ k));
  }

  pub same-IsRunning :
      (shut : Bool)
      → (tunnel.write_closed ≡ true → (c.host_read.eof ≡ true) × (queue c ≡ []))
      → IsRunning c
      → IsRunning
          (record c { tunnel = tunnel; host = calls; tunnel_write_shutdown = shut; finished = f })
  same-IsRunning shut ended h = record {
    forth = rw (same.sent, hr) h.forth;
    within = h.within;
    pieces = h.pieces;
    back = rw (hw, same.same.received, same.same.delivered) h.back;
    ended = ended;
  }

module _ (api : TcpApi) (answers : HostApi) where
  pub close_both-IsSound : (c : Connection) → IsSound c → IsSound (close_both api answers c)
  unfolding close_both bytes_read bytes_written
  close_both-IsSound c h =
      same-IsSound c (close api c.tunnel) (close-bytes api c.tunnel) (close_host ∷ c.host) refl refl
        true (close-write_closed api c.tunnel) h

  pub close_both-IsRunning : (c : Connection) → IsRunning c → IsRunning (close_both api answers c)
  unfolding close_both bytes_read bytes_written
  close_both-IsRunning c h =
      same-IsRunning c (close api c.tunnel) (close-bytes api c.tunnel) (close_host ∷ c.host) refl
        refl true c.tunnel_write_shutdown (λ k. h.ended (sym (close-write_closed api c.tunnel) ∙ k))
        h
