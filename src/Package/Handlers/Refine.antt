-- ===== src/Package/Handlers/Refine.antt =====
-- The handlers of service_package.c against the service without buffers: what it is to follow the
-- specification, and how handlers in a row and in branches follow it.
pub mod Socket
pub mod Command
pub mod Serve
use skynet_server.Common.{
  ℕ, zero, suc, ◌+◌, ◌≡◌, ◌≢◌, refl, sym, ap, ◌∙◌, ◌⊎◌, inl, inr, Bool, true, false, not, ◌&&◌,
  ◌||◌, List, [], ◌∷◌, ◌++◌, map, append-nil, append_assoc, arith, length, Bool-cases, ◌==◌,
  if◌then◌else◌,
}
use mathlib.Core.Path.{subst}
use skynet_server.Common.Bytes.{Bytes, codes}
use skynet_server.Common.Int.{ℤ, pos, negsuc, ◌==ℤ◌}
use skynet_server.Package.Queue.Refine.{
  IsValid, contents, View, nothing, first, queue-View, queue_size-length, queue_push_refines,
}
use skynet_server.Package.Types.{
  Package, Request, Response, Junk, Ptype, send, exit, and_then, emit, Effect, log, overload,
  Message, SocketType, SocketMessage, Run, ok, after, free,
}
use skynet_server.Package.Receive.Fits.{payload, ready, decoder, BodyFits, Fits, Received}
use skynet_server.Package.Receive.Stream.{new_message_lem}
use skynet_server.Package.Decoder.{decode}
use skynet_server.Package.Spec.{
  Service, Outcome, ask_open, matching, refusals, deliver, close_down, ask, obey, report, hang_up,
  take_in, chain, exiting, on_type, on_socket, beat, serve,
}
use skynet_server.Package.Handlers.Loops.{
  waiting, Answered, response-Answered, Refused, exit-Refused,
}
use skynet_server.Package.Answers.{response, service_exit}
use skynet_server.Package.Handlers.{
  request_open, report_info, request_package, command, report_once, socket_closed, on_socket_type,
  socket_data, socket_message, heartbeat, send_out, message_handler,
}

-- The invariant of the service: valid queues, a body that fits its buffer, and requests waiting
-- only while no package does.
pub record IsSound (J : Junk) (P : Package) : Type 0 where
  pub fits : Fits P
  pub settled : P.uncomplete_sz ≢ pos 0
  pub request_valid : IsValid P.request
  pub exclusive : (waiting J P ≡ []) ⊎ (ready J P ≡ [])

-- What the service is, buffers and rings forgotten.
unfoldable pub model : Junk → Package → Service
model J P = record {
  manager = P.manager;
  fd = P.fd;
  heartbeat = P.heartbeat;
  recv = P.recv;
  init = P.init;
  closed = P.closed;
  stream = decoder P;
  requests = waiting J P;
  ready = ready J P;
}

module _ (J : Junk) where
  -- A run that ends soundly with the outcome of the specification.
  pub record Follows (r : Run) (o : Outcome) (P' : Package) : Type 0 where
    pub ends : r ≡ ok P' o.1
    pub state : model J P' ≡ o.0
    pub sound : IsSound J P'

  abbrev pub Refines : Run → Outcome → Type 0
  Refines r o = (P' : Package) × Follows r o P'

  pub and_then-Refines :
      (r : Run) (k : Package → Run) (o : Outcome) (next : Service → Outcome)
      → Refines r o
      → ((P : Package) → IsSound J P → Refines (k P) (next (model J P)))
      → Refines (and_then r k) (chain o next)
  and_then-Refines r k o next (P, f) later =
      let (P', g') = later P f.sound in
      let g : Follows (k P) (next o.0) P' = subst (λ S. Follows (k P) (next S) P') f.state g' in
      (P', record { ends = rw (f.ends, g.ends); state = g.state; sound = g.sound })

  pub if-Refines :
      (b : Bool) (r r' : Run) (o o' : Outcome)
      → Refines r o
      → Refines r' o'
      → Refines (if b then r else r') (if b then o else o')
  if-Refines true r r' o o' f g = f
  if-Refines false r r' o o' f g = g

  -- A handler that only makes calls.
  pub emit-Refines :
      (P : Package) (es : List Effect) → IsSound J P → Refines (emit es P) (model J P, es)
  emit-Refines P es s = (P, record { ends = refl; state = refl; sound = s })
