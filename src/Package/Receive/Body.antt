-- ===== src/Package/Receive/Body.antt =====
-- A round of `new_message` that goes on with the body in hand.
use skynet_server.Common.{
  ℕ, ◌+◌, ◌-◌, ◌≤◌, ◌<◌, ◌≡◌, refl, sym, ap, ◌∙◌, [], ◌∷◌, ◌++◌, append-nil, append_assoc, arith,
  length, take, drop, length-take,
}
use mathlib.Core.List.{map-append}
use skynet_server.Common.Bytes.{Bytes, memcpy, length-memcpy, take-memcpy}
use skynet_server.Common.Int.{pos}
use skynet_server.Package.Queue.Refine.{contents, queue_push_refines}
use skynet_server.Package.Types.{Package, Junk}
use skynet_server.Package.Decoder.{idle, body, decode}
use skynet_server.Package.Decoder.Laws.{decode-body, decode-body_short}
use skynet_server.Package.Receive.{complete_body, extend_body}
use skynet_server.Package.Receive.Fits.{
  payload, BodyFits, decoder_of, decoder, Fits, ready, Received,
}

module _ (J : Junk) where
  module _ (P : Package) (k : ℕ) (msg : Bytes) (fits : Fits P) (e : P.uncomplete_sz ≡ pos k) where
    fields : BodyFits (pos k) P.header_sz P.uncomplete
    fields = rw e at (fits.body_fits)

    at_body : decoder P ≡ body k (take (P.uncomplete.sz - k) P.uncomplete.msg)
    at_body = ap (λ u. decoder_of u P.header_sz P.header_0 P.uncomplete) e

    -- The buffer takes the bytes `src` behind those that it has.
    copied :
        (src : Bytes) (n : ℕ)
        → length src ≤ k
        → n ≡ P.uncomplete.sz - k + length src
        → (take n (memcpy P.uncomplete.msg (P.uncomplete.sz - k) src)
            ≡ take (P.uncomplete.sz - k) P.uncomplete.msg ++ src)
          × (length (memcpy P.uncomplete.msg (P.uncomplete.sz - k) src) ≡ P.uncomplete.sz)
    copied src n room at_end = (
      take-memcpy P.uncomplete.msg (P.uncomplete.sz - k) src n (omega (arith, fields)) at_end,
      length-memcpy P.uncomplete.msg (P.uncomplete.sz - k) src (omega (arith, fields)) ∙ fields.2,
    )

    pub extend_body-Received : length msg < k → Received J P msg (extend_body J P k msg)
    unfolding extend_body
    extend_body-Received short = record {
      decoded = ap (body (k - length msg)) after.0 ∙ sym (ap (λ t. t.0) decodes);
      queued =
          sym (append-nil (ready J P)) ∙ ap (λ t. ready J P ++ t) (sym (ap (λ t. t.1) decodes));
      fits = record { valid = fits.valid; body_fits = (fields.0, omega (arith, fields), after.1) };
      settled = ground arith;
      rest = refl;
    }
      where
        after :
            (take
                (P.uncomplete.sz - (k - length msg))
                (memcpy P.uncomplete.msg (P.uncomplete.sz - k) msg)
              ≡ take (P.uncomplete.sz - k) P.uncomplete.msg ++ msg)
            × (length (memcpy P.uncomplete.msg (P.uncomplete.sz - k) msg) ≡ P.uncomplete.sz)
        after =
            copied msg (P.uncomplete.sz - (k - length msg)) (omega arith) (omega (arith, fields))

        decodes :
            decode (decoder P) msg
            ≡ (body (k - length msg) (take (P.uncomplete.sz - k) P.uncomplete.msg ++ msg), [])
        decodes = rw at_body (decode-body_short k _ msg short)

    pub complete_body-Fits : k ≤ length msg → Fits (complete_body J P k msg)
    unfolding complete_body
    complete_body-Fits enough = record {
      valid = (queue_push_refines J.response P.response _ fits.valid).0;
      body_fits = omega (arith, fields);
    }

    pub complete_body-Received :
        (P' : Package)
        → k ≤ length msg
        → Received J (complete_body J P k msg) (drop k msg) P'
        → Received J P msg P'
    unfolding complete_body
    complete_body-Received P' enough later = record {
      decoded =
          later.decoded ∙ ap (λ d. (decode d (drop k msg)).0) fresh ∙ sym (ap (λ t. t.0) decodes);
      queued =
          later.queued
          ∙ ap (λ d. ready J (complete_body J P k msg) ++ (decode d (drop k msg)).1) fresh
          ∙ ap (λ t. t ++ (decode idle (drop k msg)).1) pushed
          ∙ append_assoc (ready J P) _ _
          ∙ sym (ap (λ t. ready J P ++ t.1) decodes);
      fits = later.fits;
      settled = later.settled;
      rest = later.rest;
    }
      where
        got : Bytes
        got = take (P.uncomplete.sz - k) P.uncomplete.msg

        fresh : decoder (complete_body J P k msg) ≡ idle
        fresh = rw fields.0

        decodes :
            decode (decoder P) msg
            ≡ ((decode idle (drop k msg)).0, (got ++ take k msg) ∷ (decode idle (drop k msg)).1)
        decodes = rw at_body (decode-body k got msg enough)

        taken : length (take k msg) ≡ k
        taken = omega (arith, length-take k msg)

        whole :
            take P.uncomplete.sz (memcpy P.uncomplete.msg (P.uncomplete.sz - k) (take k msg))
            ≡ got ++ take k msg
        whole =
            (copied (take k msg) P.uncomplete.sz (omega (arith, taken))
              (omega (arith, taken, fields))).0

        pushed : ready J (complete_body J P k msg) ≡ ready J P ++ (got ++ take k msg) ∷ []
        pushed = rw (queue_push_refines J.response P.response _ fits.valid).1 (
            map-append payload (contents J.response P.response) _
            ∙ ap (λ t. ready J P ++ t ∷ []) whole)
