-- ===== src/Package/Receive/Start.antt =====
-- A round of `new_message` that reads a header.
use skynet_server.Common.{
  ℕ, ◌+◌, ◌*◌, ◌≤◌, ◌≡◌, refl, sym, ap, ◌∙◌, inl, inr, true, false, [], ◌∷◌, ◌++◌, append-nil,
  arith, take, replicate, ◌==◌, Bool-cases, length-replicate,
}
use skynet_server.Common.Bytes.{Bytes}
use skynet_server.Common.Int.{negsuc}
use skynet_server.Package.Types.{Package, Junk}
use skynet_server.Package.Decoder.{idle, half, body, decode}
use skynet_server.Package.Receive.{start_body}
use skynet_server.Package.Receive.Fits.{decoder, Fits, ready, Received}

module _ (J : Junk) where
  module _ (P : Package) (n : ℕ) (fits : Fits P) (e : P.uncomplete_sz ≡ negsuc n) where
    pub start_body-Fits : (a b : ℕ) → Fits (start_body J P a b)
    unfolding start_body
    start_body-Fits a b = record {
      valid = fits.valid;
      body_fits = (refl, omega arith, length-replicate (a * 256 + b) J.byte);
    }

    start_body-decoder : (a b : ℕ) → decoder (start_body J P a b) ≡ body (a * 256 + b) []
    unfolding start_body
    start_body-decoder a b =
        ap (λ (m : ℕ). body (a * 256 + b) (take m (replicate (a * 256 + b) J.byte))) {y = 0}
          (omega arith)

    -- What the next round makes of the package with a new header, this one made of it as well.
    pub start_body-Received :
        (P' : Package) (a b : ℕ) (msg rest : Bytes)
        → decode (decoder P) msg ≡ decode (body (a * 256 + b) []) rest
        → Received J (start_body J P a b) rest P'
        → Received J P msg P'
    unfolding start_body
    start_body-Received P' a b msg rest same later = record {
      decoded =
          later.decoded
          ∙ ap (λ d. (decode d rest).0) (start_body-decoder a b)
          ∙ sym (ap (λ t. t.0) same);
      queued =
          later.queued
          ∙ ap (λ d. ready J P ++ (decode d rest).1) (start_body-decoder a b)
          ∙ sym (ap (λ t. ready J P ++ t.1) same);
      fits = later.fits;
      settled = later.settled;
      rest = later.rest;
    }

    pub at_idle : P.header_sz ≡ 0 → decoder P ≡ idle
    at_idle h = rw (e, h)

    pub at_half : P.header_sz ≡ 1 → decoder P ≡ half P.header_0
    at_half h = rw (e, h)

    pub half_known : (P.header_sz == 0) ≡ false → P.header_sz ≡ 1
    half_known h =
        let small : (P.header_sz ≤ 1) × (n ≡ 0) = rw e at (fits.body_fits) in ground arith

    minus_one : n ≡ 0
    minus_one = let sign : (P.header_sz ≤ 1) × (n ≡ 0) = rw e at (fits.body_fits) in sign.1

    pub half_header : (P.header_sz == 0) ≡ false → (P.header_sz == 1) ≡ true
    half_header h = ground (arith, half_known h)

    undecided : decode (decoder P) [] ≡ (decoder P, [])
    unfolding decode
    undecided = rw e (elim (Bool-cases (P.header_sz == 0)) [ inl h ↦ rw h | inr h ↦ rw h ])

    pub keep-Received : Received J P [] P
    keep-Received = record {
      decoded = sym (ap (λ t. t.0) undecided);
      queued =
          sym (append-nil (ready J P)) ∙ ap (λ t. ready J P ++ t) (sym (ap (λ t. t.1) undecided));
      fits = fits;
      settled = λ z. ground (arith, e, z);
      rest = refl;
    }

    pub hold_byte-Received :
        (a : ℕ) → P.header_sz ≡ 0 → Received J P (a ∷ []) (record P { header_0 = a; header_sz = 1 })
    unfolding decode
    hold_byte-Received a h = record {
      decoded = rw (e, h);
      queued = rw (e, h) (sym (append-nil (ready J P)));
      fits = record { valid = fits.valid; body_fits = rw e (omega arith, minus_one) };
      settled = λ z. ground (arith, e, z);
      rest = refl;
    }
