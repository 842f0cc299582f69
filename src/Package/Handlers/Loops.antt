-- ===== src/Package/Handlers/Loops.antt =====
-- The loops of the package service against lists: `response` pairs requests with packages,
-- `service_exit` refuses what is left, `package_release` frees what nobody asked for.
use skynet_server.Common.{
  ℕ, zero, suc, ◌+◌, ◌<◌, ◌≡◌, refl, ap, List, [], ◌∷◌, ◌++◌, map, arith, length,
}
use skynet_server.Package.Queue.{queue_size}
use skynet_server.Package.Queue.Refine.{
  IsValid, contents, View, nothing, first, queue-View, queue_size-length,
}
use skynet_server.Package.Types.{Package, Request, Response, Junk, Effect, Run, ok, free}
use skynet_server.Common.Bytes.{Bytes}
use skynet_server.Package.Decoder.{Decoder, idle, half, body}
use skynet_server.Package.Receive.Fits.{ready, decoder}
use skynet_server.Package.Spec.{matching, refusals}
use skynet_server.Package.Answers.{response_loop, response, exit_loop, reply_with, refuse}

-- `package_release` frees the buffer of each package that nobody asked for.
abbrev frees : List Response → List Effect
frees rs = map (λ (r : Response). free r.msg) rs

-- The buffer of the body in hand, by where the stream stands.
abbrev pub held : Decoder → Bytes → List Bytes
held idle msg = []
held (half a) msg = []
held (body k part) msg = msg ∷ []

module _ (J : Junk) where
  -- The requests that wait, oldest first.
  abbrev pub waiting : Package → List Request
  waiting P = contents J.request P.request

  -- A run of `response`: the calls, and the queues that it leaves.
  pub record Answered (P P' : Package) (es : List Effect) : Type 0 where
    pub calls : es ≡ (matching (waiting P) (ready J P)).0
    pub waiting_left : waiting P' ≡ (matching (waiting P) (ready J P)).1
    pub ready_left : ready J P' ≡ (matching (waiting P) (ready J P)).2
    pub request_valid : IsValid P'.request
    pub response_valid : IsValid P'.response
    pub rest : P' ≡ record P { request = P'.request; response = P'.response }

  abbrev Answers : Package → Run → Type 0
  Answers P r = (P' : Package) × (es : List Effect) × (r ≡ ok P' es) × Answered P P' es

  -- One round, given what the later rounds do.
  response_round :
      (f : ℕ) (P : Package)
      → ((Q : Package)
          → IsValid Q.request
          → IsValid Q.response
          → length (waiting Q) < f
          → Answers Q (response_loop J f Q))
      → IsValid P.request
      → IsValid P.response
      → length (waiting P) < suc f
      → View J.request P.request
      → View J.response P.response
      → Answers P (response_loop J (suc f) P)
  unfolding response_loop matching
  response_round f P later vq vr short (nothing e p c) w = (
    P,
    [],
    rw (e, response_loop),
    record {
      calls = rw c;
      waiting_left = rw c;
      ready_left = rw c;
      request_valid = vq;
      response_valid = vr;
      rest = refl;
    },
  )
  response_round f P later vq vr short (first q qs e p c v) (nothing e' p' c') = (
    P,
    [],
    rw (e, e', response_loop),
    record {
      calls = rw (c, c');
      waiting_left = rw (c, c');
      ready_left = rw (c, c');
      request_valid = vq;
      response_valid = vr;
      rest = refl;
    },
  )
  response_round f P later vq vr short (first q qs e p c v) (first r rs e' p' c' v') =
      let (P', es, ends, a) =
        later (record P { request = qs; response = rs }) v v' (omega (arith, ap length c)) in
      (
        P',
        reply_with q r ∷ es,
        rw (e, e', p, p', ends, response_loop),
        record {
          calls = rw (c, c') (ap (λ t. reply_with q r ∷ t) a.calls);
          waiting_left = rw (c, c') a.waiting_left;
          ready_left = rw (c, c') a.ready_left;
          request_valid = a.request_valid;
          response_valid = a.response_valid;
          rest = a.rest;
        },
      )

  response_loop-Answered :
      (f : ℕ) (P : Package)
      → IsValid P.request
      → IsValid P.response
      → length (waiting P) < f
      → Answers P (response_loop J f P)
  response_loop-Answered zero P vq vr short = absurd (omega arith)
  response_loop-Answered (suc f) P vq vr short =
      response_round f P (response_loop-Answered f) vq vr short (queue-View J.request P.request vq)
        (queue-View J.response P.response vr)

  pub response-Answered :
      (P : Package) → IsValid P.request → IsValid P.response → Answers P (response J P)
  unfolding response
  response-Answered P vq vr =
      response_loop-Answered (queue_size P.request + 1) P vq vr
        (omega (arith, queue_size-length J.request P.request))

  -- The loop of `service_exit` refuses every request that waits.
  pub record Refused (P P' : Package) (es : List Effect) : Type 0 where
    pub calls : es ≡ refusals (waiting P)
    pub waiting_left : waiting P' ≡ []
    pub request_valid : IsValid P'.request
    pub rest : P' ≡ record P { request = P'.request }

  abbrev Refuses : Package → Run → Type 0
  Refuses P r = (P' : Package) × (es : List Effect) × (r ≡ ok P' es) × Refused P P' es

  exit_round :
      (f : ℕ) (P : Package)
      → ((Q : Package) → IsValid Q.request → length (waiting Q) < f → Refuses Q (exit_loop J f Q))
      → IsValid P.request
      → length (waiting P) < suc f
      → View J.request P.request
      → Refuses P (exit_loop J (suc f) P)
  unfolding exit_loop refusals
  exit_round f P later vq short (nothing e p c) = (
    P,
    [],
    rw (e, exit_loop),
    record { calls = rw c; waiting_left = c; request_valid = vq; rest = refl },
  )
  exit_round f P later vq short (first q qs e p c v) =
      let (P', es, ends, a) = later (record P { request = qs }) v (omega (arith, ap length c)) in
      (
        P',
        refuse q ∷ es,
        rw (e, p, ends, exit_loop),
        record {
          calls = rw c (ap (λ t. refuse q ∷ t) a.calls);
          waiting_left = a.waiting_left;
          request_valid = a.request_valid;
          rest = a.rest;
        },
      )

  exit_loop-Refused :
      (f : ℕ) (P : Package)
      → IsValid P.request
      → length (waiting P) < f
      → Refuses P (exit_loop J f P)
  exit_loop-Refused zero P vq short = absurd (omega arith)
  exit_loop-Refused (suc f) P vq short =
      exit_round f P (exit_loop-Refused f) vq short (queue-View J.request P.request vq)

  pub exit-Refused :
      (P : Package) → IsValid P.request → Refuses P (exit_loop J (queue_size P.request + 1) P)
  exit-Refused P vq =
      exit_loop-Refused (queue_size P.request + 1) P vq
        (omega (arith, queue_size-length J.request P.request))

  abbrev unasked : Package → List Response
  unasked P = contents J.response P.response

  -- The buffers that a package still owns: those of the packages that wait, and that of the body in
  -- hand where the stream stands inside a body.
  abbrev pub owned : Package → List Bytes
  owned P = map (λ (r : Response). r.msg) (unasked P) ++ held (decoder P) P.uncomplete.msg

  abbrev Releases : Package → Run → Type 0
  Releases P r =
      (P' : Package) × (r ≡ ok P' (frees (unasked P))) × (P' ≡ record P { response = P'.response })
