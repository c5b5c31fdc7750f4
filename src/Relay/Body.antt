-- ===== src/Relay/Body.antt =====
-- The body of service of src/port_forward.cpp and src/local_forward.cpp keeps the account of the bytes, and
-- what it throws is caught.
use tailcat_in_c.Common.{
  ◌≡◌, refl, sym, ap, true, false, not, ◌&&◌, List, [], ◌∷◌, Bytes, empty, if-Kept, Result, ok, err,
  Run, Kept, Guards, done-Guards, if-Guards, step-Guards, reading-Guards, and_then-Guards, arith,
}
use tailcat_in_c.Lwip.{TcpApi, TcpStream}
use tailcat_in_c.Lwip.Sending.{KeptBytes, shutdown_write-bytes}
use tailcat_in_c.Relay.{
  bytes_read, bytes_written, Connection, HostApi, ReaderRound, Side, is_ready, is_sent, no_chunks,
  close_both, pop_chunk, shut_host, or_finish, with_tunnel, use_chunk, take_host_chunk, end_host,
  finish_relay, unless_finished, move_bytes, service_body, catch_all,
}
use tailcat_in_c.Relay.Accounts.{
  joined, queue, AreFull, IsRunning, IsSound, running-IsSound, reader_rounds-IsRunning,
  same-IsRunning, close_both-IsRunning, close_both-IsSound,
}
use tailcat_in_c.Relay.Passing.{popped, call_host-Guards, from_tunnel-Guards, to_tunnel-Guards}

pub popped-empty :
    (chunks : List Bytes) (c : Connection)
    → chunks ≡ c.host_read.chunks
    → AreFull chunks
    → empty (pop_chunk chunks c).pending_to_tunnel ≡ true
    → queue (pop_chunk chunks c) ≡ []
popped-empty [] c same full e = ap joined (sym same)
popped-empty (piece ∷ pieces) c same full e = absurd (cc (full.0))

module _ (api : TcpApi) (answers : HostApi) where
  shut-Kept :
      (c : Connection) (r : Result (Unit {0}) × TcpStream)
      → KeptBytes c.tunnel (r.1)
      → c.host_read.eof ≡ true
      → queue c ≡ []
      → IsRunning c
      → Kept IsRunning IsSound (or_finish api answers (with_tunnel c r))
  shut-Kept c (ok _, tunnel) same e q h =
      same-IsRunning c tunnel same c.host refl refl c.finished true (λ _. (e, q)) h
  shut-Kept c (err x, tunnel) same e q h = close_both-IsRunning api answers _ (
      same-IsRunning c tunnel same c.host refl refl c.finished c.tunnel_write_shutdown (λ _. (e, q))
        h)

  use_chunk-Kept :
      (side : Side) (c : Connection)
      → (empty c.pending_to_tunnel ≡ true → queue c ≡ [])
      → IsRunning c
      → Kept IsRunning IsSound (use_chunk api answers side c)
  unfolding use_chunk
  use_chunk-Kept side c q h =
      if-Kept IsRunning IsSound (not (empty c.host_read.error)) _ _
        (λ _. close_both-IsRunning api answers c h)
        (λ _.
          if-Kept IsRunning IsSound
            ((empty c.pending_to_tunnel && c.host_read.eof)
              && (is_ready side c.tunnel && not c.tunnel_write_shutdown))
            _ _
            (λ e.
              shut-Kept c _ (shutdown_write-bytes api c.tunnel) (ground arith) (q (ground arith)) h)
            (λ _. h))

  take_host_chunk-Guards :
      (side : Side) → Guards IsRunning IsSound (take_host_chunk api answers side)
  unfolding take_host_chunk
  take_host_chunk-Guards side = record {
    guards = λ c h.
        if-Kept IsRunning IsSound (not (is_sent c)) _ _ (λ e. h)
          (λ e.
            use_chunk-Kept side (pop_chunk c.host_read.chunks c)
              (popped-empty c.host_read.chunks c refl h.pieces)
              (popped c.host_read.chunks c refl (ground arith) h));
  }

  pub end_host-Guards : Guards IsRunning IsSound (end_host api answers)
  unfolding end_host bytes_read bytes_written
  end_host-Guards = reading-Guards IsRunning IsSound _ (λ c h.
      (if-Guards IsRunning IsSound (c.tunnel.is_eof && not c.host_write_shutdown)
          (λ _.
            and_then-Guards IsRunning IsSound
              (record { guards = λ c' h'. call_host-Guards api answers c' shut_host refl refl h' })
              (λ _. step-Guards IsRunning IsSound _ (λ c' h'. record {
                forth = h'.forth;
                within = h'.within;
                pieces = h'.pieces;
                back = h'.back;
                ended = h'.ended;
              })))
          (λ _. done-Guards IsRunning IsSound tt)).guards
        c h)

  finish_relay-Guards : Guards IsRunning IsSound (finish_relay api answers)
  unfolding finish_relay
  finish_relay-Guards = record {
    guards = λ c h.
        if-Kept IsRunning IsSound
          ((c.tunnel.is_eof && c.host_read.eof) && (no_chunks c.host_read.chunks && is_sent c)) _ _
          (λ e. close_both-IsRunning api answers c h) (λ e. h);
  }

  unless_finished-Guards :
      {m : Run Connection (Unit {0})}
      → Guards IsRunning IsSound m
      → Guards IsRunning IsSound (unless_finished api answers m)
  unfolding unless_finished
  unless_finished-Guards {m} g = reading-Guards IsRunning IsSound _ (λ c h.
      (if-Guards IsRunning IsSound c.finished (λ _. done-Guards IsRunning IsSound tt)
          (λ _. g)).guards
        c h)

  pub service_body-Guards :
      (side : Side) (rounds : List ReaderRound)
      → Guards IsRunning IsSound (service_body api answers side rounds)
  unfolding service_body move_bytes
  service_body-Guards side rounds =
      and_then-Guards IsRunning IsSound
        (reading-Guards IsRunning IsSound _ (λ c h.
          (if-Guards IsRunning IsSound (is_ready side c.tunnel)
              (λ _. and_then-Guards IsRunning IsSound (from_tunnel-Guards api answers) (λ _.
                and_then-Guards IsRunning IsSound (take_host_chunk-Guards side) (λ _.
                  unless_finished-Guards (
                    and_then-Guards IsRunning IsSound (to_tunnel-Guards api answers)
                      (λ _. end_host-Guards)))))
              (λ _. done-Guards IsRunning IsSound tt)).guards
            c h))
        (λ _. unless_finished-Guards (
          and_then-Guards IsRunning IsSound
            (step-Guards IsRunning IsSound _ (λ c h. reader_rounds-IsRunning rounds c h))
            (λ _. finish_relay-Guards)))

  pub caught :
      (r : Result (Unit {0}) × Connection)
      → Kept IsRunning IsSound r
      → IsSound (catch_all api answers r)
        × ((catch_all api answers r).finished ≡ false → IsRunning (catch_all api answers r))
  unfolding close_both
  caught (ok _, c) h = (running-IsSound c h, λ _. h)
  caught (err e, c) h = (close_both-IsSound api answers c h, λ f. absurd (cc))

  pub close_both-finished : (c : Connection) → (close_both api answers c).finished ≡ true
  unfolding close_both
  close_both-finished c = refl
