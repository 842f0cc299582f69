-- ===== src/Netpack/Stream/Find.antt =====
-- `find_header` at the start of a frame, and in front of a part of a header.
use skynet_server.Common.{ℕ, ◌≤◌, ◌≡◌, refl, ap, ◌∙◌, Bool, false, [], ◌∷◌, ◌++◌, length, arith}
use skynet_server.Common.Bytes.{Bytes}
use skynet_server.Common.Int.{ℤ, pos, negsuc}
use skynet_server.Netpack.Frame.{read_size}
use skynet_server.Netpack.Frame.Wire.{header_reading, read_size-wire_header}
use skynet_server.Netpack.Frame.Prefix.{read_size-waits}
use skynet_server.Netpack.Push.{
  max_packsize, skip_loop, find_header, is_minus_two, at_most_minus_two, clamp, clamped,
}
use skynet_server.Netpack.Stream.{Sent, IsSent, header}

-- A test that goes on for neither a length nor a header that is not complete.
pub record Skips (skips : ℤ → Bool) : Type 0 where
  pub length_ends : (n : ℕ) → skips (pos n) ≡ false
  pub waiting_ends : skips (negsuc 0) ≡ false

pub is_minus_two-Skips : Skips is_minus_two
is_minus_two-Skips = record { length_ends = λ n. refl; waiting_ends = refl }

pub at_most_minus_two-Skips : Skips at_most_minus_two
at_most_minus_two-Skips = record { length_ends = λ n. refl; waiting_ends = refl }

pub skip_loop-stays :
    (skips : ℤ → Bool) (buffer : Bytes)
    → skips (read_size buffer).result ≡ false
    → skip_loop skips buffer ≡ (read_size buffer, buffer)
unfolding skip_loop
skip_loop-stays skips [] h = refl
skip_loop-stays skips (b0 ∷ []) h = refl
skip_loop-stays skips (b0 ∷ b1 ∷ rest) h = rw h refl

clamp_of_le : (n : ℕ) → n ≤ max_packsize → clamp (pos n) ≡ pos n
clamp_of_le n h = ground arith

pub find_header-frame :
    (skips : ℤ → Bool) (s : Sent) (rest : Bytes)
    → Skips skips
    → IsSent s
    → find_header false skips (header s ++ rest)
      ≡ (header_reading s.mask (length s.body) (length (header s)), header s ++ rest)
unfolding find_header
find_header-frame skips s rest k i =
    ap clamped (
      skip_loop-stays skips (header s ++ rest)
        (ap (λ r. skips r.result) read ∙ k.length_ends (length s.body))
      ∙ ap (λ r. (r, header s ++ rest)) read)
    ∙ ap
        (λ z.
          (record { result = z; head_length = length (header s); mask = s.mask }, header s ++ rest))
        (clamp_of_le (length s.body) i.fits)
  where
    read : read_size (header s ++ rest) ≡ header_reading s.mask (length s.body) (length (header s))
    read =
        read_size-wire_header s.opcode s.mask (length s.body) rest i.not_zero i.four_bits
          i.not_close i.keyed (omega (arith, i.fits))

pub find_header-waits :
    (skips : ℤ → Bool) (s : Sent) (part : Bytes) (r : ℕ) (rest : Bytes)
    → Skips skips
    → IsSent s
    → header s ≡ part ++ (r ∷ rest)
    → ((find_header false skips part).0.result ≡ negsuc 0)
      × ((find_header false skips part).1 ≡ part)
unfolding find_header
find_header-waits skips s part r rest k i e =
    (ap (λ h. (clamped h).0.result) stays ∙ ap clamp waits, ap (λ h. (clamped h).1) stays)
  where
    waits : (read_size part).result ≡ negsuc 0
    waits =
        read_size-waits s.opcode s.mask (length s.body) part r rest i.not_zero i.four_bits
          i.not_close i.keyed e

    stays : skip_loop skips part ≡ (read_size part, part)
    stays = skip_loop-stays skips part (ap skips waits ∙ k.waiting_ends)
