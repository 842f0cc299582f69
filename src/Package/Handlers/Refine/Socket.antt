-- ===== src/Package/Handlers/Refine/Socket.antt =====
-- `response`, `service_exit` and the cases of `socket_message` follow the specification.
use skynet_server.Common.{
  ◌+◌, ◌≡◌, ◌≢◌, refl, sym, ap, ◌∙◌, ◌⊎◌, inl, inr, true, false, not, ◌&&◌, List, [], ◌∷◌, ◌++◌,
}
use mathlib.Core.Path.{subst}
use skynet_server.Common.Bytes.{Bytes, codes}
use skynet_server.Common.Int.{ℤ, pos, ◌==ℤ◌}
use skynet_server.Package.Queue.Refine.{IsValid}
use skynet_server.Package.Types.{
  Package, Request, Junk, Ptype, send, exit, and_then, Effect, log, overload, SocketType,
  SocketMessage, ok,
}
use skynet_server.Package.Receive.Fits.{ready, decoder, BodyFits, Fits, Received}
use skynet_server.Package.Receive.Stream.{new_message_lem}
use skynet_server.Package.Decoder.{decode}
use skynet_server.Package.Spec.{
  Service, matching, deliver, close_down, report, hang_up, take_in, chain, exiting, on_type,
}
use skynet_server.Package.Handlers.Loops.{waiting, response-Answered, exit-Refused}
use skynet_server.Package.Answers.{response, service_exit}
use skynet_server.Package.Handlers.{report_once, socket_closed, on_socket_type, socket_data}
use skynet_server.Package.Handlers.Refine.{
  IsSound, model, Follows, Refines, and_then-Refines, if-Refines, emit-Refines,
}

module _ (J : Junk) where
  matching-exclusive :
      (qs : List Request) (ms : List Bytes) → ((matching qs ms).1 ≡ []) ⊎ ((matching qs ms).2 ≡ [])
  unfolding matching
  matching-exclusive [] ms = inl refl
  matching-exclusive (q ∷ qs) [] = inr refl
  matching-exclusive (q ∷ qs) (m ∷ ms) = matching-exclusive qs ms

  response-deliver :
      (P : Package)
      → Fits P
      → P.uncomplete_sz ≢ pos 0
      → IsValid P.request
      → Refines J (response J P) (deliver (model J P))
  unfolding model deliver
  response-deliver P fits settled vq =
      let (P', es, ends, a) = response-Answered J P vq fits.valid in
      (
        P',
        record {
          ends = ends ∙ ap (λ t. ok P' t) a.calls;
          state = λ i. record {
            manager = (a.rest i).manager;
            fd = (a.rest i).fd;
            heartbeat = (a.rest i).heartbeat;
            recv = (a.rest i).recv;
            init = (a.rest i).init;
            closed = (a.rest i).closed;
            stream = decoder (a.rest i);
            requests = a.waiting_left i;
            ready = a.ready_left i;
          };
          sound = record {
            fits = record {
              valid = a.response_valid;
              body_fits =
                  subst (λ (Q : Package). BodyFits Q.uncomplete_sz Q.header_sz Q.uncomplete)
                    (sym a.rest) fits.body_fits;
            };
            settled = subst (λ (Q : Package). Q.uncomplete_sz ≢ pos 0) (sym a.rest) settled;
            request_valid = a.request_valid;
            exclusive =
                rw (a.waiting_left, a.ready_left) (matching-exclusive (waiting J P) (ready J P));
          };
        },
      )

  service_exit-exiting :
      (P : Package) → IsSound J P → Refines J (service_exit J P) (exiting (model J P))
  unfolding model service_exit exiting
  service_exit-exiting P s =
      let (P', es, ends, a) = exit-Refused J (record P { closed = true }) s.request_valid in
      (
        P',
        record {
          ends = rw ends (
              ap {A = List Effect}
                (λ t.
                  ok P'
                    (t ++ (send P.manager Ptype.text false (pos 0) (codes "CLOSED") ∷ exit ∷ [])))
                a.calls);
          state = λ i. record {
            manager = (a.rest i).manager;
            fd = (a.rest i).fd;
            heartbeat = (a.rest i).heartbeat;
            recv = (a.rest i).recv;
            init = (a.rest i).init;
            closed = (a.rest i).closed;
            stream = decoder (a.rest i);
            requests = a.waiting_left i;
            ready = ready J (a.rest i);
          };
          sound = record {
            fits =
                subst Fits (sym a.rest)
                  (record { valid = s.fits.valid; body_fits = s.fits.body_fits });
            settled = subst (λ (Q : Package). Q.uncomplete_sz ≢ pos 0) (sym a.rest) s.settled;
            request_valid = a.request_valid;
            exclusive = inl a.waiting_left;
          };
        },
      )

  closing-Refines :
      (P : Package)
      → IsSound J P
      → Refines J (and_then (response J P) (service_exit J)) (close_down (model J P))
  unfolding close_down
  closing-Refines P s =
      and_then-Refines J (response J P) (service_exit J) (deliver (model J P)) exiting
        (response-deliver P s.fits s.settled s.request_valid) service_exit-exiting

  report_once-Refines :
      (P : Package) (id : ℤ) (word : Bytes)
      → IsSound J P
      → Refines J (report_once P id word) (report (model J P) id word)
  unfolding model report
  report_once-Refines P id word s =
      if-Refines J (not P.init && (id ==ℤ P.fd)) _ _ _ _
        (
          record P { init = true },
          record {
            ends = refl;
            state = refl;
            sound = record {
              fits = record { valid = s.fits.valid; body_fits = s.fits.body_fits };
              settled = s.settled;
              request_valid = s.request_valid;
              exclusive = s.exclusive;
            };
          },
        )
        (emit-Refines J P [] s)

  socket_closed-Refines :
      (P : Package) (id : ℤ)
      → IsSound J P
      → Refines J
          (socket_closed J P id)
          (chain (report (model J P) id (codes "FAIL")) (λ S. hang_up S id))
  unfolding model socket_closed hang_up
  socket_closed-Refines P id s =
      and_then-Refines J _ _ _ (λ S. hang_up S id) (report_once-Refines P id (codes "FAIL") s)
        λ Q q. if-Refines J (id ==ℤ Q.fd) _ _ _ _ (closing-Refines Q q) (emit-Refines J Q _ q)

  -- What the service is once it has taken in the bytes, before it answers anyone.
  abbrev arrived : Service → Bytes → Service
  arrived S msg = record S {
    recv = S.recv + 1;
    stream = (decode S.stream msg).0;
    ready = S.ready ++ (decode S.stream msg).1;
  }

  model-Received :
      (P P' : Package) (msg : Bytes)
      → Received J (record P { recv = P.recv + 1 }) msg P'
      → model J P' ≡ arrived (model J P) msg
  unfolding model
  model-Received P P' msg r = λ i. record {
    manager = (r.rest i).manager;
    fd = (r.rest i).fd;
    heartbeat = (r.rest i).heartbeat;
    recv = (r.rest i).recv;
    init = (r.rest i).init;
    closed = (r.rest i).closed;
    stream = r.decoded i;
    requests = waiting J (r.rest i);
    ready = r.queued i;
  }

  socket_data-Refines :
      (P : Package) (msg : Bytes)
      → IsSound J P
      → Refines J (socket_data J P msg) (take_in (model J P) msg)
  unfolding socket_data take_in
  socket_data-Refines P msg s =
      let (P1, ends, r) = new_message_lem J P msg s.fits in
      let request_valid : IsValid P1.request =
        subst (λ (Q : Package). IsValid Q.request) (sym r.rest) s.request_valid in
      let (P2, f') = response-deliver P1 r.fits r.settled request_valid in
      let f : Follows J (response J P1) (deliver (arrived (model J P) msg)) P2 =
        subst (λ S. Follows J (response J P1) (deliver S) P2) (model-Received P P1 msg r) f' in
      (P2, record { ends = rw (ends, f.ends); state = f.state; sound = f.sound })

  pub on_socket_type-Refines :
      (t : SocketType) (P : Package) (smsg : SocketMessage)
      → IsSound J P
      → Refines J (on_socket_type J t P smsg) (on_type t (model J P) smsg)
  unfolding model on_socket_type on_type
  on_socket_type-Refines SocketType.connect P smsg s =
      report_once-Refines P smsg.id (codes "SUCC") s
  on_socket_type-Refines SocketType.close P smsg s = socket_closed-Refines P smsg.id s
  on_socket_type-Refines SocketType.error P smsg s = socket_closed-Refines P smsg.id s
  on_socket_type-Refines SocketType.received P smsg s = socket_data-Refines P smsg.buffer s
  on_socket_type-Refines SocketType.warning P smsg s = emit-Refines J P (log (overload P.fd) ∷ []) s
  on_socket_type-Refines SocketType.other P smsg s = emit-Refines J P [] s
