-- ===== src/Package/Decoder/Laws.antt =====
-- Laws of the byte decoder: streams in pieces, bodies in pieces, and streams of whole packages.
use skynet_server.Common.{
  ℕ, zero, suc, ◌+◌, ◌-◌, ◌*◌, ◌/◌, ◌%◌, ◌^◌, ◌≤◌, ◌<◌, ◌≡◌, refl, ap, ◌∙◌, List, [], ◌∷◌, ◌++◌,
  append-nil, append_assoc, arith, length, length-append, take, drop,
}
use skynet_server.Common.Bytes.{Bytes, take-append, drop-append}
use skynet_server.Package.Decoder.{Decoder, idle, half, body, settle, feed_byte, feed, decode}

-- Two stretches of the stream are decoded as one.
pub feed-append :
    (d : Decoder) (xs ys : Bytes)
    → feed d (xs ++ ys) ≡ ((feed (feed d xs).0 ys).0, (feed d xs).1 ++ (feed (feed d xs).0 ys).1)
unfolding feed
feed-append d [] ys = refl
feed-append d (x ∷ xs) ys = rw (feed-append (feed_byte d x).0 xs ys, append_assoc (feed_byte d x).1)

pub decode-idle_header :
    (a b : ℕ) (bs : Bytes) → decode idle (a ∷ b ∷ bs) ≡ decode (body (a * 256 + b) []) bs
unfolding decode
decode-idle_header a b bs = refl

pub decode-half_header :
    (a b : ℕ) (bs : Bytes) → decode (half a) (b ∷ bs) ≡ decode (body (a * 256 + b) []) bs
unfolding decode
decode-half_header a b bs = refl

-- A stretch that reaches the end of the body gives the package, and the rest is decoded afresh.
pub decode-body :
    (k : ℕ) (got bs : Bytes)
    → k ≤ length bs
    → decode (body k got) bs
      ≡ ((decode idle (drop k bs)).0, (got ++ take k bs) ∷ (decode idle (drop k bs)).1)
unfolding decode
decode-body zero got bs h = rw append-nil
decode-body (suc k) got [] h = absurd (omega arith)
decode-body (suc k) got (b ∷ bs) h =
    rw (← append_assoc got (b ∷ []) (take k bs)) (decode-body k (got ++ b ∷ []) bs (omega arith))

abbrev short : Bytes → ℕ → Decoder × List Bytes
short got n = (body n got, [])

-- A shorter stretch only fills the body.
pub decode-body_short :
    (k : ℕ) (got bs : Bytes)
    → length bs < k
    → decode (body k got) bs ≡ (body (k - length bs) (got ++ bs), [])
unfolding decode
decode-body_short zero got bs h = absurd (omega arith)
decode-body_short (suc k) got [] h = rw (append-nil got) (ap (short got) (omega arith))
decode-body_short (suc k) got (b ∷ bs) h = rw (← append_assoc got (b ∷ []) bs) (
    decode-body_short k (got ++ b ∷ []) bs (omega arith)
    ∙ ap (short ((got ++ b ∷ []) ++ bs)) (omega arith))

-- A package in front of a stream is the first that is decoded.
pub decode-package :
    (msg rest : Bytes)
    → length msg < 2 ^ 16
    → decode idle ((length msg % 2 ^ 16 / 2 ^ 8 ∷ length msg % 2 ^ 8 ∷ []) ++ (msg ++ rest))
      ≡ ((decode idle rest).0, msg ∷ (decode idle rest).1)
decode-package msg rest h =
    decode-idle_header (length msg % 2 ^ 16 / 2 ^ 8) (length msg % 2 ^ 8) (msg ++ rest)
    ∙ ap (λ n. decode (body n []) (msg ++ rest)) size
    ∙ decode-body (length msg) [] (msg ++ rest) (omega (arith, length-append msg rest))
    ∙ cut
  where
    size : length msg % 2 ^ 16 / 2 ^ 8 * 256 + length msg % 2 ^ 8 ≡ length msg
    size = omega arith

    cut :
        ◌≡◌ {A = Decoder × List Bytes}
          (
            (decode idle (drop (length msg) (msg ++ rest))).0,
            take (length msg) (msg ++ rest) ∷ (decode idle (drop (length msg) (msg ++ rest))).1,
          )
          ((decode idle rest).0, msg ∷ (decode idle rest).1)
    cut = rw (take-append msg rest (length msg) refl, drop-append msg rest)

-- A stream that does not stand at the end of a body.
abbrev pub AtRest : Decoder → Type 0
AtRest d = settle d ≡ (d, [])

pub decode-nil : (d : Decoder) → AtRest d → decode d [] ≡ (d, [])
unfolding decode
decode-nil d r = rw r

-- Two stretches, the second decoded from where the first ends.
pub decode-append :
    (d : Decoder) (xs ys : Bytes)
    → AtRest (decode d xs).0
    → decode d (xs ++ ys)
      ≡ ((decode (decode d xs).0 ys).0, (decode d xs).1 ++ (decode (decode d xs).0 ys).1)
unfolding decode
decode-append d xs ys r = rw (feed-append (settle d).0 xs ys, r, append_assoc (settle d).1)
