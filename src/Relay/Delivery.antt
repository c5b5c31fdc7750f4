-- ===== src/Relay/Delivery.antt =====
-- The relay between the host and the tunnel loses and reorders nothing: a run of a connection of
-- src/port_forward.cpp or src/local_forward.cpp, as a relation of steps.
use tailcat_in_c.Common.{
  ℕ, ◌≡◌, refl, sym, ◌∙◌, ap, Bool, false, not, List, [], ◌++◌, append-nil, Bytes, length, empty,
  arith, Option, none, some, ◌==◌, if-holds,
}
use tailcat_in_c.Lwip.{
  ErrT, is_ok, TcpApi, TcpStream, sent_bytes, delivered, stream_recv, stream_error,
  stream_connected, accepted_stream,
}
use tailcat_in_c.Relay.{
  bytes_read, bytes_written, Connection, new_connection, HostApi, ReaderRound, returned, failed,
  reader_round, Side, service, service_body,
}
use tailcat_in_c.Relay.Accounts.{
  IsRunning, IsSound, running-IsSound, reader_round-IsRunning, reader_round-IsSound, append_to,
  close_both-IsSound,
}
use tailcat_in_c.Relay.Body.{service_body-Guards, caught, close_both-finished}

-- What a relayed connection keeps.
pub record IsRelay (c : Connection) : Type 0 where
  pub sound : IsSound c
  pub running : c.finished ≡ false → IsRunning c

-- What lwIP calls back with.
pub data Callback : Type 0 where
  recv : Option Bytes → ℕ → ErrT → Callback
  error connected : ErrT → Callback

abbrev pub called_back : Callback → TcpStream → TcpStream
called_back (recv octets copied e) = stream_recv octets copied e
called_back (error e) = stream_error e
called_back (connected e) = stream_connected e

reader_round-finished :
    (round : ReaderRound) (c : Connection) → (reader_round round c).finished ≡ c.finished
unfolding reader_round
reader_round-finished (failed text) c =
    if-holds (λ (d : Connection). d.finished ≡ c.finished) c.host_read.eof (λ _. refl) (λ _. refl)
reader_round-finished (returned piece) c =
    if-holds (λ (d : Connection). d.finished ≡ c.finished) c.host_read.eof (λ _. refl)
      (λ _.
        if-holds (λ (d : Connection). d.finished ≡ c.finished) (empty piece) (λ _. refl)
          (λ _. refl))

pub reads-IsRelay :
    (round : ReaderRound) (c : Connection) → IsRelay c → IsRelay (reader_round round c)
reads-IsRelay round c h = record {
  sound = reader_round-IsSound round c h.sound;
  running =
      λ k. reader_round-IsRunning round c (h.running (sym (reader_round-finished round c) ∙ k));
}

-- What lwIP handed over is appended.
pub record Receives (before after : TcpStream) : Type 0 where
  pub new : Bytes
  pub sent : sent_bytes after.calls ≡ sent_bytes before.calls
  pub write_closed : after.write_closed ≡ before.write_closed
  pub received : after.received ≡ before.received ++ new
  pub delivered : delivered after.calls ≡ delivered before.calls ++ new

nothing_new :
    (before : TcpStream) (has_pcb is_connected is_eof is_failed : Bool)
    → Receives before (record before {
      has_pcb = has_pcb;
      is_connected = is_connected;
      is_eof = is_eof;
      is_failed = is_failed;
    })
nothing_new before p c e f = record {
  new = [];
  sent = refl;
  write_closed = refl;
  received = sym (append-nil _);
  delivered = sym (append-nil _);
}

stream_recv-Receives :
    (octets : Option Bytes) (copied : ℕ) (e : ErrT) (s : TcpStream)
    → Receives s (stream_recv octets copied e s)
unfolding stream_recv sent_bytes delivered
stream_recv-Receives none copied e s =
    if-holds (Receives s) (not s.has_pcb) (λ _. nothing_new s _ _ _ _)
      (λ _.
        if-holds (Receives s) (not (is_ok e)) (λ _. nothing_new s _ _ _ _)
          (λ _. nothing_new s _ _ _ _))
stream_recv-Receives (some bytes) copied e s =
    if-holds (Receives s) (not s.has_pcb) (λ _. nothing_new s _ _ _ _)
      (λ _.
        if-holds (Receives s) (not (is_ok e)) (λ _. nothing_new s _ _ _ _)
          (λ _.
            if-holds (Receives s) (not (copied == length bytes)) (λ _. nothing_new s _ _ _ _)
              (λ _. record {
                new = bytes;
                sent = refl;
                write_closed = refl;
                received = refl;
                delivered = refl;
              })))

pub called_back-Receives :
    (callback : Callback) (s : TcpStream) → Receives s (called_back callback s)
unfolding stream_error stream_connected
called_back-Receives (recv octets copied e) s = stream_recv-Receives octets copied e s
called_back-Receives (error e) s =
    if-holds (Receives s) (not s.has_pcb) (λ _. nothing_new s _ _ _ _) (λ _. nothing_new s _ _ _ _)
called_back-Receives (connected e) s =
    if-holds (Receives s) (not s.has_pcb) (λ _. nothing_new s _ _ _ _)
      (λ _.
        if-holds (Receives s) (not (is_ok e)) (λ _. nothing_new s _ _ _ _)
          (λ _. nothing_new s _ _ _ _))

pub calls_back-IsRelay :
    (callback : Callback) (c : Connection)
    → IsRelay c
    → IsRelay (record c { tunnel = called_back callback c.tunnel })
calls_back-IsRelay callback c h =
    let r = called_back-Receives callback c.tunnel in
    record {
      sound = record {
        forth = (h.sound.forth.0, rw r.sent h.sound.forth.1);
        back = (
          h.sound.back.0 ++ r.new,
          append_to _ h.sound.back.0 _ r.new h.sound.back.1 ∙ sym r.delivered,
        );
        ended = λ k. rw r.sent (h.sound.ended (sym r.write_closed ∙ k));
      };
      running = λ f.
          let u = h.running f in
          record {
            forth = rw r.sent u.forth;
            within = u.within;
            pieces = u.pieces;
            back =
                ap (λ l. bytes_written c.host ++ l) r.received
                ∙ append_to _ c.tunnel.received _ r.new u.back
                ∙ sym r.delivered;
            ended = λ k. u.ended (sym r.write_closed ∙ k);
          };
    }

-- A stream that lwIP opened and has called back for since.
pub data Waiting : TcpStream → Type 0 where
  opened : (is_connected : Bool) → Waiting (record accepted_stream { is_connected = is_connected })
  called : (callback : Callback) {s : TcpStream} → Waiting s → Waiting (called_back callback s)

Waiting-bytes :
    {s : TcpStream}
    → Waiting s
    → (sent_bytes s.calls ≡ []) × (s.received ≡ delivered s.calls) × (s.write_closed ≡ false)
unfolding sent_bytes delivered
Waiting-bytes (opened is_connected) = (refl, refl, refl)
Waiting-bytes (called callback {s} waiting) =
    let r = called_back-Receives callback s in
    let before = Waiting-bytes waiting in
    (
      r.sent ∙ before.0,
      r.received ∙ ap (λ l. l ++ r.new) before.1 ∙ sym r.delivered,
      r.write_closed ∙ before.2,
    )

pub new-IsRunning : {s : TcpStream} → Waiting s → IsRunning (new_connection s)
unfolding bytes_read bytes_written
new-IsRunning waiting =
    let before = Waiting-bytes waiting in
    record {
      forth = rw before.0 refl;
      within = omega arith;
      pieces = tt;
      back = before.1;
      ended = λ k. absurd (cc (before.2));
    }

module _ (api : TcpApi) (answers : HostApi) (side : Side) where
  -- One step of a connection: the reader's thread, lwIP, or a poll of the relay.
  pub data Step : Connection → Connection → Type 0 where
    reads : (round : ReaderRound) {c : Connection} → Step c (reader_round round c)
    calls_back :
        (callback : Callback) {c : Connection}
        → Step c (record c { tunnel = called_back callback c.tunnel })
    services :
        (rounds : List ReaderRound) {c : Connection} → Step c (service api answers side rounds c)

  -- The states that a connection comes to.
  pub data Reached : Connection → Type 0 where
    starts : {s : TcpStream} → Waiting s → Reached (new_connection s)
    goes_on : {c c' : Connection} → Reached c → Step c c' → Reached c'

  service-IsRelay :
      (rounds : List ReaderRound) (c : Connection)
      → IsRelay c
      → IsRelay (service api answers side rounds c)
  unfolding service
  service-IsRelay rounds c h =
      if-holds IsRelay c.finished (λ _. h)
        (λ f.
          if-holds IsRelay c.tunnel.is_failed
            (λ _. record {
              sound = close_both-IsSound api answers c h.sound;
              running = λ k. absurd (cc (close_both-finished api answers c));
            })
            (λ _.
              let r =
                caught api answers (service_body api answers side rounds c)
                  ((service_body-Guards api answers side rounds).guards c (h.running f)) in
              record { sound = r.0; running = r.1 }))

  -- Whatever the reader of the host, lwIP and the polls do, and in whichever order: of a connection
  -- of a served port or a local forward, the bytes sent to the tunnel are a beginning of those read
  -- of the host, and the bytes written to the host a beginning of those that lwIP delivered; while
  -- it is not finished, the rest is queued, in order; and once writing to the tunnel has ended, the
  -- host has ended and every byte of it was sent.
  pub Reached-IsRelay : {c : Connection} → Reached c → IsRelay c
  Reached-IsRelay (starts waiting) = record {
    sound = running-IsSound _ (new-IsRunning waiting);
    running = λ _. new-IsRunning waiting;
  }
  Reached-IsRelay (goes_on {c} reached (reads round)) =
      reads-IsRelay round c (Reached-IsRelay reached)
  Reached-IsRelay (goes_on {c} reached (calls_back callback)) =
      calls_back-IsRelay callback c (Reached-IsRelay reached)
  Reached-IsRelay (goes_on {c} reached (services rounds)) =
      service-IsRelay rounds c (Reached-IsRelay reached)
