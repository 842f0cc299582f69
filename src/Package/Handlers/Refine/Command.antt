-- ===== src/Package/Handlers/Refine/Command.antt =====
-- The commands 'R', 'K' and 'I' follow the specification, and 'R' never fails its `assert`.
use skynet_server.Common.{
  ℕ, ◌≡◌, refl, ap, ◌⊎◌, inl, inr, false, [], ◌∷◌, map, arith, length-map, Bool-cases, ◌==◌,
}
use skynet_server.Common.Bytes.{Bytes}
use skynet_server.Common.Int.{ℤ, pos, negsuc, ◌==ℤ◌}
use skynet_server.Package.Queue.{queue_push, queue_size}
use skynet_server.Package.Queue.Refine.{
  View, nothing, first, queue-View, queue_size-length, queue_push_refines,
}
use skynet_server.Package.Types.{Package, Junk}
use skynet_server.Package.Receive.Fits.{decoder_of, payload, ready, BodyFits}
use skynet_server.Package.Spec.{place, info, ask_open, ask, obey}
use skynet_server.Package.Handlers.Loops.{waiting}
use skynet_server.Package.Handlers.{
  uncomplete_info, info_text, request_open, report_info, request_package, command,
}
use skynet_server.Package.Handlers.Refine.{IsSound, model, Refines, if-Refines, emit-Refines}

module _ (J : Junk) where
  request_open-Refines :
      (P : Package) (session : ℤ) (source : ℕ)
      → IsSound J P
      → View J.response P.response
      → View J.request P.request
      → Refines J
          (request_open J P session source)
          (ask_open (ready J P) (model J P) (record { source = source; session = session }))
  unfolding model request_open ask_open
  request_open-Refines P session source s (nothing e p c) w =
      let pushed =
        queue_push_refines J.request P.request (record { source = source; session = session })
          s.request_valid in
      (
        record P {
          request = queue_push J.request P.request (record { source = source; session = session });
        },
        record {
          ends = rw (e, c);
          state = rw c (λ i. record (model J P) { requests = pushed.1 i; ready = [] });
          sound = record {
            fits = record { valid = s.fits.valid; body_fits = s.fits.body_fits };
            settled = s.settled;
            request_valid = pushed.0;
            exclusive = inr (ap (map payload) c);
          };
        },
      )
  request_open-Refines P session source s (first r rs e p c v) (nothing e' p' c') = (
    record P { response = rs },
    record {
      ends = rw (e, e', p, c);
      state = rw c;
      sound = record {
        fits = record { valid = v; body_fits = s.fits.body_fits };
        settled = s.settled;
        request_valid = s.request_valid;
        exclusive = inl c';
      };
    },
  )
  request_open-Refines P session source s (first r rs e p c v) (first q qs e' p' c' v') =
      absurd (both s.exclusive)
    where
      both : (waiting J P ≡ []) ⊎ (ready J P ≡ []) → ⊥
      both (inl w) = cc (c', w)
      both (inr w) = cc (ap (map payload) c, w)

  -- The case 'R' of `command`.
  request_package-Refines :
      (P : Package) (session : ℤ) (source : ℕ)
      → IsSound J P
      → Refines J
          (request_package J P session source)
          (ask (model J P) (record { source = source; session = session }))
  unfolding model request_package ask
  request_package-Refines P session source s =
      if-Refines J P.closed _ _ _ _ (emit-Refines J P _ s) (
        request_open-Refines P session source s (queue-View J.response P.response s.fits.valid)
          (queue-View J.request P.request s.request_valid))

  -- The numbers that 'I' shows.
  uncomplete_info-place :
      (u : ℤ) (P : Package)
      → IsSound J P
      → P.uncomplete_sz ≡ u
      → uncomplete_info P ≡ place (decoder_of u P.header_sz P.header_0 P.uncomplete) P.uncomplete.sz
  unfolding uncomplete_info place
  uncomplete_info-place (pos n) P s e =
      let fields : BodyFits (pos n) P.header_sz P.uncomplete = rw e at (s.fits.body_fits) in
      let nonzero : (P.uncomplete_sz ==ℤ pos 0) ≡ false = ground (arith, e, s.settled) in
      rw (fields.0, nonzero, e)
  uncomplete_info-place (negsuc n) P s e = elim (Bool-cases (P.header_sz == 0)) [
    | inl known ↦ rw (known, e, minus_one)
    | inr known ↦ rw known
  ]
    where
      minus_one : n ≡ 0
      minus_one =
          let fields : BodyFits (negsuc n) P.header_sz P.uncomplete = rw e at (s.fits.body_fits) in
          fields.1

  uncomplete_info-stream :
      (P : Package)
      → IsSound J P
      → info_text
          (queue_size P.request)
          (queue_size P.response)
          (uncomplete_info P).0
          (uncomplete_info P).1
        ≡ info P.uncomplete.sz (model J P)
  unfolding model info
  uncomplete_info-stream P s = rw (
    uncomplete_info-place P.uncomplete_sz P s refl,
    queue_size-length J.request,
    queue_size-length J.response,
    length-map,
  )

  -- `command` on a message that is not empty.
  pub command-Refines :
      (P : Package) (session : ℤ) (source c : ℕ) (msg : Bytes)
      → IsSound J P
      → Refines J (command J P session source (c ∷ msg)) (
          obey P.uncomplete.sz
            (model J P)
            (record { source = source; session = session })
            (c ∷ msg))
  unfolding model command report_info obey
  command-Refines P session source c msg s =
      if-Refines J (c == b'R') _ _ _ _ (request_package-Refines P session source s) (
        if-Refines J (c == b'K') _ _ _ _ (emit-Refines J P _ s) (
          if-Refines J (c == b'I') _ _ _ _ (rw (uncomplete_info-stream P s) (emit-Refines J P _ s))
            (emit-Refines J P _ s)))
