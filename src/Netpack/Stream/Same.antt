-- ===== src/Netpack/Stream/Same.antt =====
-- Where a stream starts with a header, its bytes say which frame follows.
use skynet_server.Common.{
  ℕ, ◌≡◌, ◌⊎◌, inl, inr, refl, sym, ap, ◌∙◌, List, [], ◌∷◌, ◌++◌, append_assoc, append-nil, length,
  drop, arith,
}
use mathlib.Core.Path.{ap₂}
use skynet_server.Common.Bytes.{Bytes, drop-append}
use skynet_server.Common.Int.{pos}
use skynet_server.Netpack.Frame.{read_size}
use skynet_server.Netpack.Frame.Wire.{header_reading, read_size-wire_header}
use skynet_server.Netpack.Stream.{Sent, IsSent, header}

-- Two ways to cut the same bytes in two.
pub append-cases {ℓ} :
    {A : Type ℓ} (xs ys us vs : List A)
    → xs ++ ys ≡ us ++ vs
    → ((w : List A) × (us ≡ xs ++ w) × (ys ≡ w ++ vs))
      ⊎ ((w : List A) × (xs ≡ us ++ w) × (vs ≡ w ++ ys))
append-cases [] ys us vs e = inl (us, refl, e)
append-cases (x ∷ xs) ys [] vs e = inr (x ∷ xs, refl, sym e)
append-cases (x ∷ xs) ys (u ∷ us) vs e =
    let first : x ≡ u = cc in
    let rest : xs ++ ys ≡ us ++ vs = cc in
    elim (append-cases xs ys us vs rest) [
      | inl (w, f, g) ↦ inl (w, ap₂ ◌∷◌ (sym first) f, g)
      | inr (w, f, g) ↦ inr (w, ap₂ ◌∷◌ first f, g)
    ]

-- What two frames share if a stream can start with the header of either.
pub record SameFrame (s t : Sent) (y z : Bytes) : Type 0 where
  pub masks : s.mask ≡ t.mask
  pub lengths : length s.body ≡ length t.body
  pub behind : y ≡ z

pub header-SameFrame :
    (s t : Sent) (y z : Bytes)
    → IsSent s
    → IsSent t
    → header s ++ y ≡ header t ++ z
    → SameFrame s t y z
header-SameFrame s t y z i j e = record {
  masks = ap (λ r. r.mask) same;
  lengths = pos-injective (ap (λ r. r.result) same);
  behind =
      sym (drop-append (header s) y)
      ∙ ap₂ drop (ap (λ r. r.head_length) same) e
      ∙ drop-append (header t) z;
}
  where
    pos-injective : {a b : ℕ} → pos a ≡ pos b → a ≡ b
    pos-injective h = cc

    read :
        (u : Sent) (rest : Bytes)
        → IsSent u
        → read_size (header u ++ rest) ≡ header_reading u.mask (length u.body) (length (header u))
    read u rest k =
        read_size-wire_header u.opcode u.mask (length u.body) rest k.not_zero k.four_bits
          k.not_close k.keyed (omega (arith, k.fits))

    same :
        header_reading s.mask (length s.body) (length (header s))
        ≡ header_reading t.mask (length t.body) (length (header t))
    same = sym (read s y i) ∙ ap read_size e ∙ read t z j

-- A header does not go on where another ends.
pub header-end :
    (s t : Sent) (b : ℕ) (bs : Bytes) → IsSent s → IsSent t → ¬ (header s ≡ header t ++ (b ∷ bs))
header-end s t b bs i j e =
    let same = header-SameFrame s t [] (b ∷ bs) i j (append-nil (header s) ∙ e) in
    absurd (omega (arith, ap length same.behind))

-- A part of a header in front of the bytes of a stream: the rest of the next frame's header follows.
pub header-rest :
    (s0 : Sent) (part : Bytes) (r : ℕ) (rest : Bytes) (s : Sent) (chunk z : Bytes)
    → IsSent s0
    → header s0 ≡ part ++ (r ∷ rest)
    → IsSent s
    → part ++ chunk ≡ header s ++ z
    → (b : ℕ) × (bs : Bytes) × (header s ≡ part ++ (b ∷ bs)) × (chunk ≡ (b ∷ bs) ++ z)
header-rest s0 part r rest s chunk z i0 e0 i e = elim (append-cases part chunk (header s) z e) [
  | inl (b ∷ bs, f, g) ↦ (b, bs, f, g)
  | inl ([], f, g) ↦
      absurd
        (header-end s0 s r rest i0 i (e0 ∙ ap (λ t. t ++ (r ∷ rest)) (sym (f ∙ append-nil part))))
  | inr (w, f, g) ↦ absurd (too_long w f)
]
  where
    too_long : (w : Bytes) → ¬ (part ≡ header s ++ w)
    too_long [] f =
        header-end s0 s r rest i0 i (e0 ∙ ap (λ t. t ++ (r ∷ rest)) (f ∙ append-nil (header s)))
    too_long (c ∷ w) f =
        header-end s0 s c (w ++ (r ∷ rest)) i0 i
          (e0 ∙ ap (λ t. t ++ (r ∷ rest)) f ∙ append_assoc (header s) (c ∷ w) (r ∷ rest))
