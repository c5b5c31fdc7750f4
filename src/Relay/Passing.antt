-- ===== src/Relay/Passing.antt =====
-- The parts of service of src/port_forward.cpp and src/local_forward.cpp keep the account of the bytes.
use native.Mathlib.Numerals.{unary_clauses}
use tailcat_in_c.Common.{
  ℕ, zero, suc, length-drop, ◌+◌, min, ltb, ==_iff, ◌≡◌, refl, sym, ◌∙◌, ap, subst, true, List, [],
  ◌∷◌, ◌++◌, append-nil, append_assoc, Bytes, empty, length, take, drop, take-append-drop,
  take-length, if-holds, Result, ok, err, arith, Run, done, step, and_then, Kept, Guards,
}
use tailcat_in_c.Lwip.{TcpApi, TcpStream, sent_bytes, delivered, read_available}
use tailcat_in_c.Lwip.Sending.{Wrote, Written, write-Written}
use tailcat_in_c.Relay.{
  HostCall, bytes_read, bytes_written, Connection, HostApi, is_sent, pop_chunk, write_all,
  call_host, with_tunnel, from_tunnel, advance, to_tunnel,
}
use tailcat_in_c.Relay.Accounts.{joined, queue, AreFull, IsRunning, IsSound, running-IsSound}

min-same : (n : ℕ) → min n n ≡ n
min-same n = omega arith

drop-length : (xs : Bytes) → drop (length xs) xs ≡ []
drop-length [] = refl
drop-length (x ∷ xs) = drop-length xs

zero_add : (n : ℕ) → n ≡ 0 + n
zero_add n = omega arith

suc_add : (m n : ℕ) → suc (m + n) ≡ suc m + n
suc_add m n = omega arith

pub drop-add : (m n : ℕ) (xs : Bytes) → drop n (drop m xs) ≡ drop (m + n) xs
drop-add zero n xs = ap (λ k. drop k xs) (zero_add n)
drop-add (suc m) zero [] = simp unary_clauses refl
drop-add (suc m) (suc n) [] = simp unary_clauses refl
drop-add (suc m) n (x ∷ xs) = drop-add m n xs ∙ ap (λ k. drop k (x ∷ xs)) (suc_add m n)

pub is_empty : (xs : Bytes) → empty xs ≡ true → xs ≡ []
is_empty [] e = refl
is_empty (x ∷ xs) e = absurd (cc)

is_sent-length : (c : Connection) → is_sent c ≡ true → c.pending_offset ≡ length c.pending_to_tunnel
is_sent-length c e = (==_iff c.pending_offset (length c.pending_to_tunnel)).0 e

pub is_sent-queue : (c : Connection) → is_sent c ≡ true → queue c ≡ joined c.host_read.chunks
is_sent-queue c e = rw (is_sent-length c e, drop-length c.pending_to_tunnel) refl

pub popped :
    (chunks : List Bytes) (c : Connection)
    → chunks ≡ c.host_read.chunks
    → is_sent c ≡ true
    → IsRunning c
    → IsRunning (pop_chunk chunks c)
popped [] c same e h = record {
  forth = ap (λ q. sent_bytes c.tunnel.calls ++ q) (sym (is_sent-queue c e)) ∙ h.forth;
  within = omega arith;
  pieces = h.pieces;
  back = h.back;
  ended = λ k. ((h.ended k).0, sym (is_sent-queue c e) ∙ (h.ended k).1);
}
popped (piece ∷ pieces) c same e h = record {
  forth =
      ap (λ q. sent_bytes c.tunnel.calls ++ q) (ap joined same ∙ sym (is_sent-queue c e)) ∙ h.forth;
  within = omega arith;
  pieces = (subst AreFull (sym same) h.pieces).1;
  back = h.back;
  ended = λ k. ((h.ended k).0, ap joined same ∙ sym (is_sent-queue c e) ∙ (h.ended k).1);
}

-- A run that only answers leaves the account as it is.
pub answered :
    {A : Type 0} (r : Result A) (c : Connection) → IsRunning c → Kept IsRunning IsSound (r, c)
answered (ok a) c h = h
answered (err e) c h = running-IsSound c h

module _ (api : TcpApi) (answers : HostApi) where
  read_all :
      (s : TcpStream)
      → read_available api (length s.received) s ≡ (ok s.received, record s { received = [] })
  unfolding read_available
  read_all s =
      rw (min-same (length s.received), take-length s.received, drop-length s.received) refl

  pub call_host-Guards :
      (c : Connection) (call : HostCall)
      → bytes_read (call ∷ c.host) ≡ bytes_read c.host
      → bytes_written (call ∷ c.host) ≡ bytes_written c.host
      → IsRunning c
      → Kept IsRunning IsSound (call_host api answers call c)
  unfolding call_host
  call_host-Guards c call hr hw h = answered (answers (call ∷ c.host)) _ (record {
    forth = h.forth ∙ sym hr;
    within = h.within;
    pieces = h.pieces;
    back = ap (λ w. w ++ c.tunnel.received) hw ∙ h.back;
    ended = h.ended;
  })

  received_none :
      (c : Connection)
      → empty c.tunnel.received ≡ true
      → IsRunning c
      → IsRunning (record c { tunnel = record c.tunnel { received = [] } })
  received_none c e h = record {
    forth = h.forth;
    within = h.within;
    pieces = h.pieces;
    back = ap (λ r. bytes_written c.host ++ r) (sym (is_empty c.tunnel.received e)) ∙ h.back;
    ended = h.ended;
  }

  received_written :
      (c : Connection)
      → IsRunning c
      → IsRunning (record c {
        tunnel = record c.tunnel { received = [] };
        host = write_all c.tunnel.received ∷ c.host;
      })
  unfolding bytes_written bytes_read
  received_written c h = record {
    forth = h.forth;
    within = h.within;
    pieces = h.pieces;
    back = append-nil _ ∙ h.back;
    ended = h.ended;
  }

  pub from_tunnel-Guards : Guards IsRunning IsSound (from_tunnel api answers)
  unfolding from_tunnel and_then step call_host done
  from_tunnel-Guards = record {
    guards = λ c h. rw (read_all c.tunnel) (
        if-holds
          (λ (m : Run Connection (Unit {0})).
            Kept IsRunning IsSound (m (record c { tunnel = record c.tunnel { received = [] } })))
          (empty c.tunnel.received) (λ e. received_none c e h)
          (λ e.
            answered (answers (write_all c.tunnel.received ∷ c.host)) _ (received_written c h)));
  }

  split_at :
      (n : ℕ) (sent pending rest : Bytes)
      → (sent ++ take n pending) ++ (drop n pending ++ rest) ≡ sent ++ (pending ++ rest)
  split_at n sent pending rest =
      append_assoc sent (take n pending) (drop n pending ++ rest)
      ∙ ap (λ l. sent ++ l)
          (sym (append_assoc (take n pending) (drop n pending) rest)
            ∙ ap (λ l. l ++ rest) (take-append-drop n pending))

  module _ (c : Connection) (n : ℕ) (tunnel : TcpStream)
      (w : Wrote (drop c.pending_offset c.pending_to_tunnel) c.tunnel n tunnel)
      (h : IsRunning c) where
    wrote-forth :
        sent_bytes tunnel.calls
          ++ (drop n (drop c.pending_offset c.pending_to_tunnel) ++ joined c.host_read.chunks)
        ≡ bytes_read c.host
    wrote-forth = rw w.sent (
        split_at n (sent_bytes c.tunnel.calls) (drop c.pending_offset c.pending_to_tunnel)
          (joined c.host_read.chunks)
        ∙ h.forth)

    wrote-back : bytes_written c.host ++ tunnel.received ≡ delivered tunnel.calls
    wrote-back = rw (w.same.received, w.same.delivered) h.back

    none_left :
        c.tunnel.write_closed ≡ true
        → drop n (drop c.pending_offset c.pending_to_tunnel) ++ joined c.host_read.chunks ≡ []
    none_left k = rw (w.none_after k) (h.ended k).1

    wrote-IsRunning :
        IsRunning (record c { tunnel = tunnel; pending_offset = c.pending_offset + n })
    wrote-IsRunning = record {
      forth = rw⁻¹ (drop-add c.pending_offset n c.pending_to_tunnel) wrote-forth;
      within = omega (arith, w.within, h.within, length-drop c.pending_offset c.pending_to_tunnel);
      pieces = h.pieces;
      back = wrote-back;
      ended = λ k. (
        (h.ended (sym w.write_closed ∙ k)).0,
        rw⁻¹ (drop-add c.pending_offset n c.pending_to_tunnel) (none_left (sym w.write_closed ∙ k)),
      );
    }

    wrote-IsSound : IsSound (record c { tunnel = tunnel })
    wrote-IsSound = record {
      forth = (_, wrote-forth);
      back = (_, wrote-back);
      ended = λ k. (
        (h.ended (sym w.write_closed ∙ k)).0,
        sym (append-nil _)
            ∙ ap (λ l. sent_bytes tunnel.calls ++ l) (sym (none_left (sym w.write_closed ∙ k)))
            ∙ wrote-forth,
      );
    }

  write-advance :
      (c : Connection) (r : Result ℕ × TcpStream)
      → Written (drop c.pending_offset c.pending_to_tunnel) c.tunnel r
      → IsRunning c
      → Kept IsRunning IsSound (advance (with_tunnel c r))
  write-advance c (ok n, tunnel) w h = wrote-IsRunning c n tunnel w h
  write-advance c (err e, tunnel) w h = wrote-IsSound c w.0 tunnel w.1 h

  pub to_tunnel-Guards : Guards IsRunning IsSound (to_tunnel api answers)
  unfolding to_tunnel
  to_tunnel-Guards = record {
    guards = λ c h.
        if-holds (Kept IsRunning IsSound) (ltb c.pending_offset (length c.pending_to_tunnel))
          (λ e.
            write-advance c _
              (write-Written api (drop c.pending_offset c.pending_to_tunnel) c.tunnel) h)
          (λ e. h);
  }
