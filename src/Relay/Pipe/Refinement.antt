-- ===== src/Relay/Pipe/Refinement.antt =====
-- The relay of src/port_forward.cpp and src/local_forward.cpp implements two pipes.
use tailcat_in_c.Common.{◌≡◌, sym, ◌∙◌, ap, false, ◌++◌, append_assoc, Bytes}
use tailcat_in_c.Lwip.{TcpApi, delivered}
use tailcat_in_c.Relay.{Connection, HostApi, Side, bytes_read}
use tailcat_in_c.Relay.Accounts.{IsRunning}
use tailcat_in_c.Relay.Delivery.{
  Callback, called_back, Step, reads, calls_back, services, Reached, goes_on, Reached-IsRelay,
  called_back-Receives,
}
use tailcat_in_c.Relay.Pipe.{Pipe, PipeSteps, to_tunnel_pipe, to_host_pipe, move}
use tailcat_in_c.Relay.Pipe.Growth.{Grows, here, same-Begins, reader_round-Grows, service-Grows}

-- With the same bytes put in, and more come out, a pipe has moved.
pipe-moves :
    (before after : Pipe) (was now new front : Bytes)
    → before.arrived ++ before.queued ≡ was
    → after.arrived ++ after.queued ≡ now
    → now ≡ was ++ new
    → after.arrived ≡ before.arrived ++ front
    → PipeSteps before after
pipe-moves before after was now new front b a n f =
    move before after new front f
      (sym (append_assoc before.arrived before.queued new) ∙ ap (λ l. l ++ new) b ∙ sym n ∙ sym a)

both-move :
    (c d : Connection)
    → IsRunning c
    → IsRunning d
    → Grows c d
    → PipeSteps (to_tunnel_pipe c) (to_tunnel_pipe d) × PipeSteps (to_host_pipe c) (to_host_pipe d)
both-move c d h k g = (
  pipe-moves (to_tunnel_pipe c) (to_tunnel_pipe d) (bytes_read c.host) (bytes_read d.host) g.read.0
      g.sent.0 h.forth k.forth g.read.1 g.sent.1,
  pipe-moves (to_host_pipe c) (to_host_pipe d) (delivered c.tunnel.calls) (delivered d.tunnel.calls)
      g.delivered.0 g.written.0 h.back k.back g.delivered.1 g.written.1,
)

called_back-Grows :
    (callback : Callback) (c : Connection)
    → Grows c (record c { tunnel = called_back callback c.tunnel })
called_back-Grows callback c =
    let r = called_back-Receives callback c.tunnel in
    record {
      sent = same-Begins _ _ r.sent;
      delivered = (r.new, r.delivered);
      read = here _;
      written = here _;
    }

module _ (api : TcpApi) (answers : HostApi) (side : Side) where
  Step-Grows : {c d : Connection} → Step api answers side c d → Grows c d
  Step-Grows (reads round {c}) = reader_round-Grows round c
  Step-Grows (calls_back callback {c}) = called_back-Grows callback c
  Step-Grows (services rounds {c}) = service-Grows api answers side rounds c

  -- A step of a connection of a served port or a local forward, be it of the reader, of lwIP or of
  -- a poll, between two states that are not finished, moves each of two pipes of bytes, the one to
  -- the tunnel and the one to the host, by steps that put bytes in at the end and get bytes out at
  -- the front, and by no others.
  pub Step-PipeSteps :
      (c d : Connection)
      → Reached api answers side c
      → Step api answers side c d
      → c.finished ≡ false
      → d.finished ≡ false
      → PipeSteps (to_tunnel_pipe c) (to_tunnel_pipe d)
        × PipeSteps (to_host_pipe c) (to_host_pipe d)
  Step-PipeSteps c d reached s f g =
      both-move c d ((Reached-IsRelay api answers side reached).running f)
        ((Reached-IsRelay api answers side (goes_on reached s)).running g) (Step-Grows s)
