-- ===== src/Relay/Pipe.antt =====
-- A connection of src/port_forward.cpp or src/local_forward.cpp as two pipes of bytes.
pub mod Growth
pub mod Refinement
use tailcat_in_c.Common.{
  ◌≡◌, sym, ◌∙◌, ap, subst, false, List, [], ◌∷◌, ◌++◌, append_assoc, append-nil, Bytes,
}
use tailcat_in_c.Lwip.{TcpApi, sent_bytes, delivered}
use tailcat_in_c.Relay.{Connection, HostApi, Side, bytes_read, bytes_written}
use tailcat_in_c.Relay.Accounts.{queue, IsRunning}
use tailcat_in_c.Relay.Delivery.{Step, Reached}

-- A pipe: what was put in and has not come out, and what came out.
pub record Pipe : Type 0 where
  pub queued : Bytes
  pub arrived : Bytes

-- A pipe takes bytes at its end and gives bytes from its front; it does nothing else.
pub data PipeStep : Pipe → Pipe → Type 0 where
  put :
      (new : Bytes) {queued arrived : Bytes}
      → PipeStep
          (record { queued = queued; arrived = arrived })
          (record { queued = queued ++ new; arrived = arrived })
  get :
      (front : Bytes) {rest arrived : Bytes}
      → PipeStep
          (record { queued = front ++ rest; arrived = arrived })
          (record { queued = rest; arrived = arrived ++ front })

pub data PipeSteps : Pipe → Pipe → Type 0 where
  stop : {p : Pipe} → PipeSteps p p
  next : {p q r : Pipe} → PipeStep p q → PipeSteps q r → PipeSteps p r

abbrev pub to_tunnel_pipe : Connection → Pipe
to_tunnel_pipe c = record { queued = queue c; arrived = sent_bytes c.tunnel.calls }

abbrev pub to_host_pipe : Connection → Pipe
to_host_pipe c = record { queued = c.tunnel.received; arrived = bytes_written c.host }

-- The bytes behind a common beginning.
cancel : (front xs ys : Bytes) → front ++ xs ≡ front ++ ys → xs ≡ ys
cancel [] xs ys e = e
cancel (c ∷ front) xs ys e = cancel front xs ys (cc)

-- Two states of a pipe: more came out, and what was put in before was put in still.
pub move :
    (before after : Pipe) (new front : Bytes)
    → after.arrived ≡ before.arrived ++ front
    → before.arrived ++ (before.queued ++ new) ≡ after.arrived ++ after.queued
    → PipeSteps before after
move before after new front came same =
    let split =
      cancel before.arrived (before.queued ++ new) (front ++ after.queued) (
        same ∙ ap (λ l. l ++ after.queued) came ∙ append_assoc before.arrived front after.queued) in
    next (put new) (
      subst (λ l. PipeSteps (record { queued = l; arrived = before.arrived }) after) (sym split)
        (next (get front)
          (subst (λ l. PipeSteps (record { queued = after.queued; arrived = l }) after) came stop)))
