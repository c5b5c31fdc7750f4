-- ===== src/Lwip/Sending.antt =====
-- What LwipTcpStream::write, shutdown_write and close leave of a stream of src/lwip_stack.cpp.
use tailcat_in_c.Common.{
  ℕ, ◌≤◌, ◌==◌, min, ◌≡◌, refl, Bool, true, false, ◌||◌, not, inl, inr, List, ◌∷◌, ◌++◌, append-nil,
  ◌∙◌, Bytes, length, take, Bool-cases, Result, ok, err, arith, sym,
}
use tailcat_in_c.Lwip.{
  ErrT, err_ok, err_mem, err_buf, err_abrt, err_arg, err_other, is_ok, TcpCall, asked_sndbuf,
  tcp_write, tcp_output, tcp_shutdown, TcpApi, TcpStream, sent_bytes, delivered, output_result,
  write_answer, write_amount, write, max_u16, shutdown_answer, shutdown_write, close,
}

-- The stream but for the bytes sent and the end of writing.
pub record Same (before after : TcpStream) : Type 0 where
  pub received : after.received ≡ before.received
  pub delivered : delivered after.calls ≡ delivered before.calls
  pub is_eof : after.is_eof ≡ before.is_eof
  pub is_connected : after.is_connected ≡ before.is_connected
  pub is_failed : after.is_failed ≡ before.is_failed

-- `n` of the bytes went to lwIP; none behind the end of writing.
pub record Wrote (octets : Bytes) (before : TcpStream) (n : ℕ) (after : TcpStream) : Type 0 where
  pub within : n ≤ length octets
  pub sent : sent_bytes after.calls ≡ sent_bytes before.calls ++ take n octets
  pub write_closed : after.write_closed ≡ before.write_closed
  pub none_after : before.write_closed ≡ true → n ≡ 0
  pub same : Same before after

-- What a write answers: the number of bytes that went to lwIP, or an exception behind some.
abbrev pub Written : Bytes → TcpStream → Result ℕ × TcpStream → Type 0
Written octets before (ok n, after) = Wrote octets before n after
Written octets before (err e, after) = (n : ℕ) × Wrote octets before n after

module _ (api : TcpApi) (octets : Bytes) where
  -- Calls that send nothing and take nothing.
  no_bytes :
      (calls : List TcpCall) (s : TcpStream)
      → sent_bytes calls ≡ sent_bytes s.calls
      → delivered calls ≡ delivered s.calls
      → Wrote octets s 0 (record s { calls = calls })
  no_bytes calls s hs hd = record {
    within = omega arith;
    sent = hs ∙ sym (append-nil _);
    write_closed = refl;
    none_after = λ _. refl;
    same = record {
      received = refl;
      delivered = hd;
      is_eof = refl;
      is_connected = refl;
      is_failed = refl;
    };
  }

  taken :
      (n : ℕ) (answer : ErrT) (s : TcpStream)
      → n ≤ length octets
      → s.write_closed ≡ false
      → Wrote octets s n
          (record s { calls = tcp_output answer ∷ tcp_write (take n octets) err_ok ∷ s.calls })
  unfolding sent_bytes delivered
  taken n answer s h c = record {
    within = h;
    sent = refl;
    write_closed = refl;
    none_after = λ e. cc;
    same = record {
      received = refl;
      delivered = refl;
      is_eof = refl;
      is_connected = refl;
      is_failed = refl;
    };
  }

  output-Written :
      (n : ℕ) (answer : ErrT) (s : TcpStream)
      → n ≤ length octets
      → s.write_closed ≡ false
      → Written octets s (
        output_result api answer n,
        record s { calls = tcp_output answer ∷ tcp_write (take n octets) err_ok ∷ s.calls },
      )
  output-Written n err_ok s h c = taken n err_ok s h c
  output-Written n err_mem s h c = taken n err_mem s h c
  output-Written n err_buf s h c = (n, taken n err_buf s h c)
  output-Written n err_abrt s h c = (n, taken n err_abrt s h c)
  output-Written n err_arg s h c = (n, taken n err_arg s h c)
  output-Written n (err_other k) s h c = (n, taken n (err_other k) s h c)

  write_answer-Written :
      (n : ℕ) (answer : ErrT) (s : TcpStream)
      → n ≤ length octets
      → s.write_closed ≡ false
      → Written octets s (
          write_answer api answer n
            (record s { calls = tcp_write (take n octets) answer ∷ s.calls }))
  unfolding sent_bytes delivered
  write_answer-Written n err_ok s h c = output-Written n _ s h c
  write_answer-Written n err_mem s h c = no_bytes _ s refl refl
  write_answer-Written n err_buf s h c = (0, no_bytes _ s refl refl)
  write_answer-Written n err_abrt s h c = (0, no_bytes _ s refl refl)
  write_answer-Written n err_arg s h c = (0, no_bytes _ s refl refl)
  write_answer-Written n (err_other k) s h c = (0, no_bytes _ s refl refl)

  write_amount-Written :
      (n : ℕ) (s : TcpStream)
      → n ≤ length octets
      → s.write_closed ≡ false
      → Written octets s (write_amount api n octets s)
  write_amount-Written n s h c = elim (Bool-cases (n == 0)) [
    | inl e ↦ rw e (no_bytes s.calls s refl refl)
    | inr e ↦ rw e (write_answer-Written n (api.on_write s.calls (take n octets)) s h c)
  ]

  -- To ask for the room sends nothing.
  asked-Wrote :
      (available n : ℕ) (s after : TcpStream)
      → Wrote octets (record s { calls = asked_sndbuf available ∷ s.calls }) n after
      → Wrote octets s n after
  unfolding sent_bytes delivered
  asked-Wrote available n s after h = record {
    within = h.within;
    sent = h.sent;
    write_closed = h.write_closed;
    none_after = h.none_after;
    same = record {
      received = h.same.received;
      delivered = h.same.delivered;
      is_eof = h.same.is_eof;
      is_connected = h.same.is_connected;
      is_failed = h.same.is_failed;
    };
  }

  asked-Written :
      (available : ℕ) (s : TcpStream) (r : Result ℕ × TcpStream)
      → Written octets (record s { calls = asked_sndbuf available ∷ s.calls }) r
      → Written octets s r
  asked-Written available s (ok n, after) h = asked-Wrote available n s after h
  asked-Written available s (err e, after) (n, h) = (n, asked-Wrote available n s after h)

  -- Every write sends the first bytes of what it is given, as many as it answers; it sends none
  -- without a pcb, before the connection stands, or behind the end of writing.
  pub write-Written : (s : TcpStream) → Written octets s (write api octets s)
  unfolding write
  write-Written s = elim (Bool-cases (not s.has_pcb || (not s.is_connected || s.write_closed))) [
    | inl e ↦ rw e (no_bytes s.calls s refl refl)
    | inr e ↦ rw e (
        asked-Written (api.tcp_sndbuf s.calls) s _ (
          write_amount-Written (min (min (length octets) (api.tcp_sndbuf s.calls)) max_u16)
            (record s { calls = asked_sndbuf (api.tcp_sndbuf s.calls) ∷ s.calls }) (omega arith)
            (ground arith)))
  ]

-- The stream and whether writing has ended; `b` is how that was before.
pub record KeptBytes (before after : TcpStream) : Type 0 where
  pub sent : sent_bytes after.calls ≡ sent_bytes before.calls
  pub same : Same before after

module _ (api : TcpApi) where
  same_calls :
      (calls : List TcpCall) (b p : Bool) (s : TcpStream)
      → sent_bytes calls ≡ sent_bytes s.calls
      → delivered calls ≡ delivered s.calls
      → KeptBytes s (record s { calls = calls; write_closed = b; has_pcb = p })
  same_calls calls b p s hs hd = record {
    sent = hs;
    same = record {
      received = refl;
      delivered = hd;
      is_eof = refl;
      is_connected = refl;
      is_failed = refl;
    };
  }

  shutdown_answer-bytes :
      (answer : ErrT) (s : TcpStream)
      → KeptBytes s
          ((shutdown_answer api answer (record s { calls = tcp_shutdown answer ∷ s.calls })).1)
  unfolding sent_bytes delivered
  shutdown_answer-bytes err_ok s = same_calls _ true _ s refl refl
  shutdown_answer-bytes _ s = same_calls _ _ _ s refl refl

  pub shutdown_write-bytes : (s : TcpStream) → KeptBytes s ((shutdown_write api s).1)
  unfolding shutdown_write
  shutdown_write-bytes s = elim (Bool-cases (not s.has_pcb || s.write_closed)) [
    | inl e ↦ rw e (same_calls s.calls _ _ s refl refl)
    | inr e ↦ rw e (shutdown_answer-bytes (api.on_shutdown s.calls) s)
  ]

  pub close-bytes : (s : TcpStream) → KeptBytes s (close api s)
  unfolding close sent_bytes delivered
  close-bytes s = elim (Bool-cases (not s.has_pcb)) [
    | inl e ↦ rw e (same_calls s.calls _ _ s refl refl)
    | inr e ↦ rw e (elim (Bool-cases (is_ok (api.on_close s.calls))) [
      | inl k ↦ rw k (same_calls _ _ _ s refl refl)
      | inr k ↦ rw k (same_calls _ _ _ s refl refl)
    ])
  ]

  pub close-write_closed : (s : TcpStream) → (close api s).write_closed ≡ s.write_closed
  unfolding close
  close-write_closed s = ground arith
