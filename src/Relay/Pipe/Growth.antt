-- ===== src/Relay/Pipe/Growth.antt =====
-- Whatever happens to a connection of src/port_forward.cpp or src/local_forward.cpp, what was sent, read,
-- written and delivered stays so.
use tailcat_in_c.Common.{
  ◌≡◌, refl, sym, ◌∙◌, ap, ◌&&◌, not, List, [], ◌∷◌, ◌++◌, append_assoc, append-nil, Bytes, length,
  empty, drop, ltb, if-holds, Result, ok, err, Run, Maintains, done-Maintains, step-Maintains,
  reading-Maintains, if-Maintains, and_then-Maintains,
}
use tailcat_in_c.Lwip.{TcpApi, TcpStream, sent_bytes, delivered, read_available}
use tailcat_in_c.Lwip.Sending.{KeptBytes, Written, write-Written, shutdown_write-bytes, close-bytes}
use tailcat_in_c.Relay.{
  HostCall, read_some, write_all, write_reply, shut_host, close_host, Connection, HostApi, Side,
  bytes_read, bytes_written, ReaderRound, returned, failed, reader_loop, reader_round,
  reader_rounds, is_ready, is_sent, no_chunks, close_both, pop_chunk, call_host, or_finish,
  with_tunnel, use_chunk, take_host_chunk, from_tunnel, advance, to_tunnel, end_host, finish_relay,
  unless_finished, move_bytes, service_body, catch_all, service,
}

-- `ys` goes on where `xs` ends.
abbrev pub Begins : Bytes → Bytes → Type 0
Begins xs ys = (more : Bytes) × (ys ≡ xs ++ more)

pub same-Begins : (xs ys : Bytes) → ys ≡ xs → Begins xs ys
same-Begins xs ys e = ([], e ∙ sym (append-nil xs))

pub here : (xs : Bytes) → Begins xs xs
here xs = same-Begins xs xs refl

Begins-Begins : (xs ys zs : Bytes) → Begins xs ys → Begins ys zs → Begins xs zs
Begins-Begins xs ys zs p q = (p.0 ++ q.0, q.1 ∙ ap (λ l. l ++ q.0) p.1 ∙ append_assoc xs p.0 q.0)

pub record Grows (c d : Connection) : Type 0 where
  pub sent : Begins (sent_bytes c.tunnel.calls) (sent_bytes d.tunnel.calls)
  pub delivered : Begins (delivered c.tunnel.calls) (delivered d.tunnel.calls)
  pub read : Begins (bytes_read c.host) (bytes_read d.host)
  pub written : Begins (bytes_written c.host) (bytes_written d.host)

Grows-Grows : {c d e : Connection} → Grows c d → Grows d e → Grows c e
Grows-Grows p q = record {
  sent = Begins-Begins _ _ _ p.sent q.sent;
  delivered = Begins-Begins _ _ _ p.delivered q.delivered;
  read = Begins-Begins _ _ _ p.read q.read;
  written = Begins-Begins _ _ _ p.written q.written;
}

-- The same logs.
same_logs :
    (c d : Connection)
    → sent_bytes d.tunnel.calls ≡ sent_bytes c.tunnel.calls
    → delivered d.tunnel.calls ≡ delivered c.tunnel.calls
    → bytes_read d.host ≡ bytes_read c.host
    → bytes_written d.host ≡ bytes_written c.host
    → Grows c d
same_logs c d s e r w = record {
  sent = same-Begins _ _ s;
  delivered = same-Begins _ _ e;
  read = same-Begins _ _ r;
  written = same-Begins _ _ w;
}

called : (call : HostCall) (c : Connection) → Grows c (record c { host = call ∷ c.host })
unfolding bytes_read bytes_written
called (read_some piece) c = record {
  sent = here _;
  delivered = here _;
  read = (piece, refl);
  written = here _;
}
called (write_all piece) c = record {
  sent = here _;
  delivered = here _;
  read = here _;
  written = (piece, refl);
}
called (write_reply piece) c = same_logs c _ refl refl refl refl
called shut_host c = same_logs c _ refl refl refl refl
called close_host c = same_logs c _ refl refl refl refl

reader_loop-Grows : (round : ReaderRound) (c : Connection) → Grows c (reader_loop round c)
unfolding bytes_read bytes_written
reader_loop-Grows (failed text) c = same_logs c _ refl refl refl refl
reader_loop-Grows (returned piece) c =
    if-holds (Grows c) (empty piece) (λ _. same_logs c _ refl refl refl refl)
      (λ _. record { sent = here _; delivered = here _; read = (piece, refl); written = here _ })

pub reader_round-Grows : (round : ReaderRound) (c : Connection) → Grows c (reader_round round c)
unfolding reader_round
reader_round-Grows round c =
    if-holds (Grows c) c.host_read.eof (λ _. same_logs c c refl refl refl refl)
      (λ _. reader_loop-Grows round c)

reader_rounds-Grows :
    (rounds : List ReaderRound) (c : Connection) → Grows c (reader_rounds rounds c)
unfolding reader_rounds
reader_rounds-Grows [] c = same_logs c c refl refl refl refl
reader_rounds-Grows (round ∷ rounds) c =
    Grows-Grows (reader_round-Grows round c) (reader_rounds-Grows rounds (reader_round round c))

popped-Grows : (chunks : List Bytes) (c : Connection) → Grows c (pop_chunk chunks c)
popped-Grows [] c = same_logs c _ refl refl refl refl
popped-Grows (piece ∷ pieces) c = same_logs c _ refl refl refl refl

module _ (api : TcpApi) (answers : HostApi) where
  close_both-Grows : (c : Connection) → Grows c (close_both api answers c)
  unfolding close_both bytes_read bytes_written
  close_both-Grows c =
      let k = close-bytes api c.tunnel in same_logs c _ k.sent k.same.delivered refl refl

  or_finish-Grows :
      (c : Connection) (r : Result (Unit {0}) × TcpStream)
      → KeptBytes c.tunnel (r.1)
      → Grows c ((or_finish api answers (with_tunnel c r)).1)
  or_finish-Grows c (ok _, tunnel) k = same_logs c _ k.sent k.same.delivered refl refl
  or_finish-Grows c (err e, tunnel) k =
      Grows-Grows {d = record c { tunnel = tunnel }}
        (same_logs c _ k.sent k.same.delivered refl refl) (close_both-Grows _)

  use_chunk-Grows : (side : Side) (c : Connection) → Grows c ((use_chunk api answers side c).1)
  unfolding use_chunk
  use_chunk-Grows side c =
      if-holds (λ (r : Result (Unit {0}) × Connection). Grows c (r.1))
        (not (empty c.host_read.error)) (λ _. close_both-Grows c)
        (λ _.
          if-holds (λ (r : Result (Unit {0}) × Connection). Grows c (r.1))
            ((empty c.pending_to_tunnel && c.host_read.eof)
              && (is_ready side c.tunnel && not c.tunnel_write_shutdown))
            (λ _. or_finish-Grows c _ (shutdown_write-bytes api c.tunnel))
            (λ _. same_logs c c refl refl refl refl))

  take_host_chunk-Grows :
      (side : Side) (c : Connection) → Grows c ((take_host_chunk api answers side c).1)
  unfolding take_host_chunk
  take_host_chunk-Grows side c =
      if-holds (λ (r : Result (Unit {0}) × Connection). Grows c (r.1)) (not (is_sent c))
        (λ _. same_logs c c refl refl refl refl)
        (λ _.
          Grows-Grows (popped-Grows c.host_read.chunks c)
            (use_chunk-Grows side (pop_chunk c.host_read.chunks c)))

  wrote-Grows :
      (c : Connection) (r : Result _ × TcpStream)
      → Written (drop c.pending_offset c.pending_to_tunnel) c.tunnel r
      → Grows c ((advance (with_tunnel c r)).1)
  wrote-Grows c (ok n, tunnel) w = record {
    sent = (_, w.sent);
    delivered = same-Begins _ _ w.same.delivered;
    read = here _;
    written = here _;
  }
  wrote-Grows c (err e, tunnel) w = record {
    sent = (_, w.1.sent);
    delivered = same-Begins _ _ w.1.same.delivered;
    read = here _;
    written = here _;
  }

  to_tunnel-Grows : (c : Connection) → Grows c ((to_tunnel api answers c).1)
  unfolding to_tunnel
  to_tunnel-Grows c =
      if-holds (λ (r : Result (Unit {0}) × Connection). Grows c (r.1))
        (ltb c.pending_offset (length c.pending_to_tunnel))
        (λ _.
          wrote-Grows c _ (write-Written api (drop c.pending_offset c.pending_to_tunnel) c.tunnel))
        (λ _. same_logs c c refl refl refl refl)

  read-Grows :
      (c : Connection)
      → Grows c ((with_tunnel c (read_available api (length c.tunnel.received) c.tunnel)).1)
  unfolding read_available
  read-Grows c = same_logs c _ refl refl refl refl

  module _ (c0 : Connection) where
    -- A step that grows the logs keeps what has grown before.
    grown :
        {A : Type 0} (f : Run Connection A)
        → ((c : Connection) → Grows c ((f c).1))
        → Maintains (Grows c0) f
    grown f k = record { keeps = λ c h. Grows-Grows h (k c) }

    call_host-Grows : (call : HostCall) → Maintains (Grows c0) (call_host api answers call)
    unfolding call_host
    call_host-Grows call = grown _ (called call)

    from_tunnel-Grows : Maintains (Grows c0) (from_tunnel api answers)
    unfolding from_tunnel
    from_tunnel-Grows =
        and_then-Maintains (Grows c0)
          (step-Maintains (Grows c0) _ (λ c h. Grows-Grows h (read-Grows c)))
          (λ octets.
            if-Maintains (Grows c0) (empty octets) (λ _. done-Maintains (Grows c0) tt)
              (λ _. call_host-Grows (write_all octets)))

    end_host-Grows : Maintains (Grows c0) (end_host api answers)
    unfolding end_host
    end_host-Grows = reading-Maintains (Grows c0) _ (λ c h.
        (if-Maintains (Grows c0) (c.tunnel.is_eof && not c.host_write_shutdown)
            (λ _. and_then-Maintains (Grows c0) (call_host-Grows shut_host) (λ _.
              step-Maintains (Grows c0) _
                (λ d k. Grows-Grows k (same_logs d _ refl refl refl refl))))
            (λ _. done-Maintains (Grows c0) tt)).keeps
          c h)

    finish_relay-Grows : Maintains (Grows c0) (finish_relay api answers)
    unfolding finish_relay
    finish_relay-Grows = grown _ (λ c.
        if-holds (λ (r : Result (Unit {0}) × Connection). Grows c (r.1))
          ((c.tunnel.is_eof && c.host_read.eof) && (no_chunks c.host_read.chunks && is_sent c))
          (λ _. close_both-Grows c) (λ _. same_logs c c refl refl refl refl))

    unless_finished-Grows :
        {m : Run Connection (Unit {0})}
        → Maintains (Grows c0) m
        → Maintains (Grows c0) (unless_finished api answers m)
    unfolding unless_finished
    unless_finished-Grows {m} k = reading-Maintains (Grows c0) _ (λ c h.
        (if-Maintains (Grows c0) c.finished (λ _. done-Maintains (Grows c0) tt) (λ _. k)).keeps c h)

    service_body-Grows :
        (side : Side) (rounds : List ReaderRound)
        → Maintains (Grows c0) (service_body api answers side rounds)
    unfolding service_body move_bytes
    service_body-Grows side rounds =
        and_then-Maintains (Grows c0)
          (reading-Maintains (Grows c0) _ (λ c h.
            (if-Maintains (Grows c0) (is_ready side c.tunnel)
                (λ _. and_then-Maintains (Grows c0) from_tunnel-Grows (λ _.
                  and_then-Maintains (Grows c0) (grown _ (take_host_chunk-Grows side)) (λ _.
                    unless_finished-Grows (
                      and_then-Maintains (Grows c0) (grown _ to_tunnel-Grows)
                        (λ _. end_host-Grows)))))
                (λ _. done-Maintains (Grows c0) tt)).keeps
              c h))
          (λ _. unless_finished-Grows (
            and_then-Maintains (Grows c0)
              (step-Maintains (Grows c0) _ (λ c h. Grows-Grows h (reader_rounds-Grows rounds c)))
              (λ _. finish_relay-Grows)))

  caught-Grows :
      (c : Connection) (r : Result (Unit {0}) × Connection)
      → Grows c (r.1)
      → Grows c (catch_all api answers r)
  caught-Grows c (ok _, d) h = h
  caught-Grows c (err e, d) h = Grows-Grows h (close_both-Grows d)

  pub service-Grows :
      (side : Side) (rounds : List ReaderRound) (c : Connection)
      → Grows c (service api answers side rounds c)
  unfolding service
  service-Grows side rounds c =
      if-holds (Grows c) c.finished (λ _. same_logs c c refl refl refl refl)
        (λ _.
          if-holds (Grows c) c.tunnel.is_failed (λ _. close_both-Grows c)
            (λ _.
              caught-Grows c _
                ((service_body-Grows c side rounds).keeps c (same_logs c c refl refl refl refl))))
