-- ===== src/Netpack/Stream/Resume.antt =====
-- `filter_data` where a header has begun: `header_loop` takes the bytes one by one.
use skynet_server.Common.{
  ℕ, ◌≡◌, refl, sym, ap, ◌∙◌, false, [], ◌∷◌, ◌++◌, append_assoc, append-nil, length, arith,
  length-append, leb,
}
use mathlib.Core.Path.{ap₂}
use skynet_server.Common.Bytes.{Bytes}
use skynet_server.Common.Int.{negsuc}
use skynet_server.Netpack.Types.{done}
use skynet_server.Netpack.Frame.{Reading}
use skynet_server.Netpack.Frame.Wire.{header_reading}
use skynet_server.Netpack.Frame.Prefix.{wire_header-le}
use skynet_server.Netpack.Push.{header_array_size, is_minus_two, find_header}
use skynet_server.Netpack.Filter.{header_round, header_loop}
use skynet_server.Netpack.Stream.{Sent, IsSent, header}
use skynet_server.Netpack.Stream.Find.{is_minus_two-Skips, find_header-frame, find_header-waits}

has_room :
    (s : Sent) (part : Bytes) (b : ℕ) (rest : Bytes)
    → IsSent s
    → header s ≡ part ++ (b ∷ rest)
    → leb header_array_size (length part) ≡ false
has_room s part b rest i e = ground (
  arith,
  wire_header-le s.opcode s.mask (length s.body) i.keyed,
  ap length e,
  length-append part (b ∷ rest),
)

-- One byte, by what is found behind it.
header_loop-found :
    (part : Bytes) (b : ℕ) (more : Bytes) (h : Reading × Bytes)
    → leb header_array_size (length part) ≡ false
    → find_header false is_minus_two (part ++ (b ∷ [])) ≡ h
    → header_loop false part (b ∷ more)
      ≡ header_round (header_loop false h.1 more) h.0.result h.0 h.1 more
unfolding header_loop
header_loop-found part b more h room e = rw room (
    ap (λ (g : Reading × Bytes). header_round (header_loop false g.1 more) g.0.result g.0 g.1 more)
      e)

-- One byte that completes the header, and one that does not.
header_loop-last :
    (s : Sent) (part : Bytes) (b : ℕ) (more : Bytes)
    → IsSent s
    → header s ≡ part ++ (b ∷ [])
    → header_loop false part (b ∷ more)
      ≡ done (header_reading s.mask (length s.body) (length (header s)), header s, more)
unfolding header_round
header_loop-last s part b more i e =
    header_loop-found part b more
      (header_reading s.mask (length s.body) (length (header s)), header s)
      (has_room s part b [] i e) found
  where
    found :
        find_header false is_minus_two (part ++ (b ∷ []))
        ≡ (header_reading s.mask (length s.body) (length (header s)), header s)
    found =
        ap (find_header false is_minus_two) (sym e ∙ sym (append-nil (header s)))
        ∙ find_header-frame is_minus_two s [] is_minus_two-Skips i
        ∙ ap (λ h. (header_reading s.mask (length s.body) (length (header s)), h))
            (append-nil (header s))

header_loop-step :
    (s : Sent) (part : Bytes) (b r : ℕ) (rest : Bytes) (c : ℕ) (more : Bytes)
    → IsSent s
    → header s ≡ part ++ (b ∷ (r ∷ rest))
    → header_loop false part (b ∷ (c ∷ more)) ≡ header_loop false (part ++ (b ∷ [])) (c ∷ more)
unfolding header_round
header_loop-step s part b r rest c more i e =
    header_loop-found part b (c ∷ more) h (has_room s part b (r ∷ rest) i e) refl
    ∙ ap (λ z. header_round (header_loop false h.1 (c ∷ more)) z h.0 h.1 (c ∷ more)) found.0
    ∙ ap (λ t. header_loop false t (c ∷ more)) found.1
  where
    h : Reading × Bytes
    h = find_header false is_minus_two (part ++ (b ∷ []))

    found : (h.0.result ≡ negsuc 0) × (h.1 ≡ part ++ (b ∷ []))
    found =
        find_header-waits is_minus_two s (part ++ (b ∷ [])) r rest is_minus_two-Skips i
          (e ∙ sym (append_assoc part (b ∷ []) (r ∷ rest)))

-- The bytes that complete the header, and what follows.
pub header_loop-completes :
    (s : Sent) (part : Bytes) (b : ℕ) (rest more : Bytes)
    → IsSent s
    → header s ≡ part ++ (b ∷ rest)
    → header_loop false part ((b ∷ rest) ++ more)
      ≡ done (header_reading s.mask (length s.body) (length (header s)), header s, more)
header_loop-completes s part b [] more i e = header_loop-last s part b more i e
header_loop-completes s part b (c ∷ rest) more i e =
    header_loop-step s part b c rest c (rest ++ more) i e
    ∙ header_loop-completes s (part ++ (b ∷ [])) c rest more i
        (e ∙ sym (append_assoc part (b ∷ []) (c ∷ rest)))

-- Bytes that do not complete it.
pub header_loop-waits :
    (s : Sent) (part : Bytes) (b : ℕ) (bs : Bytes) (r : ℕ) (rest : Bytes)
    → IsSent s
    → header s ≡ part ++ ((b ∷ bs) ++ (r ∷ rest))
    → (g : Reading) × (header_loop false part (b ∷ bs) ≡ done (g, part ++ (b ∷ bs), []))
      × (g.result ≡ negsuc 0)
unfolding header_round
header_loop-waits s part b [] r rest i e = (
  h.0,
  header_loop-found part b [] h (has_room s part b (r ∷ rest) i e) refl
      ∙ ap₂ (λ z t. header_round (header_loop false h.1 []) z h.0 t []) found.0 found.1,
  found.0,
)
  where
    h : Reading × Bytes
    h = find_header false is_minus_two (part ++ (b ∷ []))

    found : (h.0.result ≡ negsuc 0) × (h.1 ≡ part ++ (b ∷ []))
    found =
        find_header-waits is_minus_two s (part ++ (b ∷ [])) r rest is_minus_two-Skips i
          (e ∙ sym (append_assoc part (b ∷ []) (r ∷ rest)))
header_loop-waits s part b (c ∷ bs) r rest i e =
    let later =
      header_loop-waits s (part ++ (b ∷ [])) c bs r rest i
        (e ∙ sym (append_assoc part (b ∷ []) ((c ∷ bs) ++ (r ∷ rest)))) in
    (
      later.0,
      header_loop-step s part b c (bs ++ (r ∷ rest)) c bs i e
          ∙ later.1
          ∙ ap (λ h. done (later.0, h, [])) (append_assoc part (b ∷ []) (c ∷ bs)),
      later.2,
    )
