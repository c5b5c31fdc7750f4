-- ===== src/Lwip.antt =====
-- LwipTcpStream of src/lwip_stack.cpp: a TCP connection of the lwIP stack, and the callbacks that lwIP
-- calls for it. lwIP itself is a parameter, TcpApi: what its functions answer may depend on every call
-- of them so far. The texts of the errors leave out lwIP's number.
pub mod Sending
use tailcat_in_c.Common.{
  ℕ, ◌==◌, min, Bool, true, false, ◌||◌, not, List, [], ◌∷◌, ◌++◌, Option, none, some, Bytes,
  length, take, drop, if◌then◌else◌, Result, ok, err, runtime_error, Run,
}

-- lwIP's err_t.
pub data ErrT : Type 0 where
  err_ok err_mem err_buf err_abrt err_arg : ErrT
  err_other : ℕ → ErrT

abbrev pub is_ok : ErrT → Bool
is_ok err_ok = true
is_ok _ = false

-- A call of lwIP for a connection, with its answer.
pub data TcpCall : Type 0 where
  asked_sndbuf : ℕ → TcpCall
  tcp_write : Bytes → ErrT → TcpCall
  tcp_output tcp_shutdown tcp_close : ErrT → TcpCall
  tcp_recved : Bytes → TcpCall
  tcp_abort : TcpCall

pub record TcpApi : Type 0 where
  pub tcp_sndbuf : List TcpCall → ℕ
  pub on_write : List TcpCall → Bytes → ErrT
  pub on_output : List TcpCall → ErrT
  pub on_shutdown : List TcpCall → ErrT
  pub on_close : List TcpCall → ErrT

-- LwipTcpStream::Impl. `has_pcb` says that pcb is not null, and `calls` is what lwIP was called for it,
-- the latest first.
pub record TcpStream : Type 0 where
  pub has_pcb : Bool
  pub is_connected : Bool
  pub is_eof : Bool
  pub is_failed : Bool
  pub write_closed : Bool
  pub received : Bytes
  pub calls : List TcpCall

-- What lwIP took over to send, and what it handed over.
unfoldable pub sent_bytes : List TcpCall → Bytes
sent_bytes [] = []
sent_bytes (tcp_write octets err_ok ∷ calls) = sent_bytes calls ++ octets
sent_bytes (_ ∷ calls) = sent_bytes calls

unfoldable pub delivered : List TcpCall → Bytes
delivered [] = []
delivered (tcp_recved octets ∷ calls) = delivered calls ++ octets
delivered (_ ∷ calls) = delivered calls

-- The callbacks find no stream where its pcb was given up: tcp_arg is null then.
-- `octets` is the pbuf, and `copied` what pbuf_copy_partial answers for it.
unfoldable pub stream_recv : Option Bytes → ℕ → ErrT → TcpStream → TcpStream
stream_recv octets copied e s =
    if not s.has_pcb then s else if not (is_ok e) then s else elim octets [
      | none ↦ record s { is_eof = true }
      | some bytes ↦
          if not (copied == length bytes)
          then record s { is_failed = true }
          else record s { received = s.received ++ bytes; calls = tcp_recved bytes ∷ s.calls }
    ]

unfoldable pub stream_error : ErrT → TcpStream → TcpStream
stream_error e s = if not s.has_pcb then s else record s { has_pcb = false; is_failed = true }

unfoldable pub stream_connected : ErrT → TcpStream → TcpStream
stream_connected e s =
    if not s.has_pcb
    then s
    else if not (is_ok e)
    then record s { is_failed = true }
    else record s { is_connected = true }

-- listener_accept: the stream of a connection that came in; `dialled_stream` is that of one going out.
abbrev pub accepted_stream : TcpStream
accepted_stream = record {
  has_pcb = true;
  is_connected = true;
  is_eof = false;
  is_failed = false;
  write_closed = false;
  received = [];
  calls = [];
}

abbrev pub dialled_stream : TcpStream
dialled_stream = record accepted_stream { is_connected = false }

abbrev pub max_u16 : ℕ
max_u16 = 65535

module _ (api : TcpApi) where
  -- tcp_output behind a write that lwIP took: only ERR_MEM is let pass.
  abbrev pub output_result : ErrT → ℕ → Result ℕ
  output_result err_ok amount = ok amount
  output_result err_mem amount = ok amount
  output_result _ amount = err (runtime_error "tcp_output: lwIP error")

  abbrev pub write_output : ℕ → Run TcpStream ℕ
  write_output amount s =
      let answer = api.on_output s.calls in
      (output_result answer amount, record s { calls = tcp_output answer ∷ s.calls })

  abbrev pub write_answer : ErrT → ℕ → Run TcpStream ℕ
  write_answer err_mem amount s = (ok 0, s)
  write_answer err_ok amount s = write_output amount s
  write_answer _ amount s = (err (runtime_error "tcp_write: lwIP error"), s)

  -- The first `amount` bytes are offered to lwIP.
  abbrev pub write_amount : ℕ → Bytes → Run TcpStream ℕ
  write_amount amount octets s =
      if amount == 0
      then (ok 0, s)
      else let answer = api.on_write s.calls (take amount octets) in
        write_answer answer amount
          (record s { calls = tcp_write (take amount octets) answer ∷ s.calls })

  unfoldable pub write : Bytes → Run TcpStream ℕ
  write octets s =
      if not s.has_pcb || (not s.is_connected || s.write_closed)
      then (ok 0, s)
      else let available = api.tcp_sndbuf s.calls in
        write_amount (min (min (length octets) available) max_u16) octets
          (record s { calls = asked_sndbuf available ∷ s.calls })

  unfoldable pub read_available : ℕ → Run TcpStream Bytes
  read_available max_bytes s =
      let count = min max_bytes (length s.received) in
      (ok (take count s.received), record s { received = drop count s.received })

  abbrev pub shutdown_answer : ErrT → Run TcpStream (Unit {0})
  shutdown_answer err_ok s = (ok tt, record s { write_closed = true })
  shutdown_answer _ s = (err (runtime_error "tcp_shutdown: lwIP error"), s)

  unfoldable pub shutdown_write : Run TcpStream (Unit {0})
  shutdown_write s =
      if not s.has_pcb || s.write_closed
      then (ok tt, s)
      else let answer = api.on_shutdown s.calls in
        shutdown_answer answer (record s { calls = tcp_shutdown answer ∷ s.calls })

  -- tcp_close, and tcp_abort where it fails; the callbacks are taken off before.
  unfoldable pub close : TcpStream → TcpStream
  close s =
      if not s.has_pcb
      then s
      else let answer = api.on_close s.calls in
        record s {
          has_pcb = false;
          calls =
              if is_ok answer
              then tcp_close answer ∷ s.calls
              else tcp_abort ∷ tcp_close answer ∷ s.calls;
        }
