-- ===== src/Netpack/Frame/Header.antt =====
-- The numbers in a header, as `ntoh64` reads them and `FRAME_SET_LENGTH` writes them.
use skynet_server.Common.{ℕ, ◌+◌, ◌*◌, ◌/◌, ◌%◌, ◌^◌, ◌<◌, ◌≡◌, refl, [], ◌∷◌, arith}
use skynet_server.Common.Int.{pos}
use skynet_server.Netpack.Frame.{ntoh64, ntohl, load, to_int, length_byte}

ntohl-load :
    (a b c d : ℕ)
    → a < 256
    → b < 256
    → c < 256
    → d < 256
    → ntohl (a + 256 * (b + 256 * (c + 256 * d))) ≡ ((a * 256 + b) * 256 + c) * 256 + d
ntohl-load a b c d ha hb hc hd = omega arith

low :
    (a b c d x : ℕ)
    → a < 256
    → b < 256
    → c < 256
    → d < 256
    → (a + 256 * (b + 256 * (c + 256 * (d + 256 * x)))) % 2 ^ 32
      ≡ a + 256 * (b + 256 * (c + 256 * d))
low a b c d x ha hb hc hd = omega arith

high :
    (a b c d x : ℕ)
    → a < 256
    → b < 256
    → c < 256
    → d < 256
    → (a + 256 * (b + 256 * (c + 256 * (d + 256 * x)))) / 2 ^ 32 ≡ x
high a b c d x ha hb hc hd = omega arith

pub to_int-pos : (n : ℕ) → n < 2 ^ 31 → to_int n ≡ pos n
to_int-pos n h = ground arith

-- The eight bytes of a length, the high byte first, are that length.
pub ntoh64-load :
    (a b c d e f g h : ℕ)
    → a < 256
    → b < 256
    → c < 256
    → d < 256
    → e < 256
    → f < 256
    → g < 256
    → h < 256
    → ntoh64 (load (a ∷ b ∷ c ∷ d ∷ e ∷ f ∷ g ∷ h ∷ []))
      ≡ (((a * 256 + b) * 256 + c) * 256 + d) * 2 ^ 32 + (((e * 256 + f) * 256 + g) * 256 + h)
unfolding ntoh64
ntoh64-load a b c d e f g h ha hb hc hd he hf hg hh =
    rw
      (
        low a b c d (e + 256 * (f + 256 * (g + 256 * (h + 256 * 0)))) ha hb hc hd,
        high a b c d (e + 256 * (f + 256 * (g + 256 * (h + 256 * 0)))) ha hb hc hd,
        ntohl-load a b c d ha hb hc hd,
        low e f g h 0 he hf hg hh,
        ntohl-load e f g h he hf hg hh,
      )
      refl

pub join8 :
    (len : ℕ)
    → len < 2 ^ 31
    → (((length_byte len 7 * 256 + length_byte len 6) * 256 + length_byte len 5) * 256
            + length_byte len 4)
          * 2 ^ 32
        + (((length_byte len 3 * 256 + length_byte len 2) * 256 + length_byte len 1) * 256
            + length_byte len 0)
      ≡ len
join8 len h = omega arith
