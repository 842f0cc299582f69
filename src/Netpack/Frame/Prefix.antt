-- ===== src/Netpack/Frame/Prefix.antt =====
-- `read_size` on a header that has not arrived in full.
use skynet_server.Common.{
  ℕ, suc, ◌+◌, ◌≤◌, ◌<◌, ◌≡◌, ◌≢◌, refl, sym, ap, ◌∙◌, inl, inr, Bool, Option, none, some, [], ◌∷◌,
  ◌++◌, arith, length, ltb, ◌==◌, if◌then◌else◌, Bool-cases, length-append,
}
use skynet_server.Common.Bytes.{Bytes}
use skynet_server.Common.Int.{negsuc}
use skynet_server.Netpack.Frame.{read_size, read_length, read_mask, length_byte}
use skynet_server.Netpack.Frame.Wire.{
  mask_bit, key, IsKey, length_field, wire_header, eight, flag_bits, read_size-first,
}

-- The length of a header, by its mask bit and the seven bits of the length.
abbrev needed : Bool → ℕ → ℕ
needed is_mask length_bits =
    (if ltb length_bits 126 then 2 else if length_bits == 126 then 4 else 10)
    + (if is_mask then 4 else 0)

read_length-waits :
    (buffer : Bytes) (is_mask : Bool) (length_bits : ℕ)
    → 2 ≤ length buffer
    → length buffer < needed is_mask length_bits
    → (read_length buffer is_mask length_bits).result ≡ negsuc 0
unfolding read_length read_mask
read_length-waits buffer is_mask length_bits h' h = ground arith

length-key :
    (mask : Option Bytes) → IsKey mask → length (key mask) ≡ (if mask_bit mask == 128 then 4 else 0)
length-key none k = refl
length-key (some m) k = k

-- The seven bits of the length, and how a header starts.
abbrev length_bits : ℕ → ℕ
length_bits len = if ltb len 126 then len else if ltb len 65536 then 126 else 127

length_bits-lt : (len : ℕ) → length_bits len < 128
length_bits-lt len = ground arith

length_field-first :
    (flag len : ℕ) → (ext : Bytes) × (length_field flag len ≡ (flag + length_bits len) ∷ ext)
length_field-first flag len = elim (Bool-cases (ltb len 126)) [
  | inl short ↦ ([], rw short refl)
  | inr not_short ↦ elim (Bool-cases (ltb len 65536)) [
    | inl medium ↦ (length_byte len 1 ∷ length_byte len 0 ∷ [], rw (not_short, medium) refl)
    | inr not_medium ↦ (eight len, rw (not_short, not_medium) refl)
  ]
]

pub length-wire_header :
    (opcode : ℕ) (mask : Option Bytes) (len : ℕ)
    → IsKey mask
    → length (wire_header opcode mask len) ≡ needed (mask_bit mask == 128) (length_bits len)
length-wire_header opcode mask len k = elim (Bool-cases (ltb len 126)) [
  | inl short ↦ rw (short) (ground (arith, length-key mask k))
  | inr not_short ↦ elim (Bool-cases (ltb len 65536)) [
    | inl medium ↦ rw (not_short, medium) (ground (arith, length-key mask k))
    | inr not_medium ↦ rw (not_short, not_medium) (ground (arith, length-key mask k))
  ]
]

-- Fewer bytes than a header has are not read as one.
pub read_size-waits :
    (opcode : ℕ) (mask : Option Bytes) (len : ℕ) (part : Bytes) (r : ℕ) (rest : Bytes)
    → 0 < opcode
    → opcode < 16
    → opcode ≢ 8
    → IsKey mask
    → wire_header opcode mask len ≡ part ++ (r ∷ rest)
    → (read_size part).result ≡ negsuc 0
unfolding read_size
read_size-waits opcode mask len [] r rest o o' ne k e = refl
read_size-waits opcode mask len (b0 ∷ []) r rest o o' ne k e = refl
read_size-waits opcode mask len (b0 ∷ b1 ∷ part) r rest o o' ne k e =
    let shape = length_field-first (mask_bit mask) len in
    let e' : (128 + opcode) ∷ ((mask_bit mask + length_bits len) ∷ (shape.0 ++ key mask))
        ≡ b0 ∷ b1 ∷ (part ++ (r ∷ rest)) =
      ap (λ t. (128 + opcode) ∷ (t ++ key mask)) (sym shape.1) ∙ e in
    let first : b0 ≡ 128 + opcode = cc in
    let second : b1 ≡ mask_bit mask + length_bits len = cc in
    let total : needed (mask_bit mask == 128) (length_bits len)
        ≡ suc (suc (length part + suc (length rest))) =
      sym (length-wire_header opcode mask len k)
      ∙ ap length e
      ∙ ap (λ n. suc (suc n)) (length-append part (r ∷ rest)) in
    rw
      (
        first,
        second,
        read_size-first opcode (mask_bit mask + length_bits len) part o o' ne,
        (flag_bits mask (length_bits len) (length_bits-lt len)).0,
        (flag_bits mask (length_bits len) (length_bits-lt len)).1,
      )
      (read_length-waits ((128 + opcode) ∷ (mask_bit mask + length_bits len) ∷ part)
        (mask_bit mask == 128) (length_bits len) (omega arith) (omega (arith, total)))

pub wire_header-le :
    (opcode : ℕ) (mask : Option Bytes) (len : ℕ)
    → IsKey mask
    → length (wire_header opcode mask len) ≤ 14
wire_header-le opcode mask len k = ground (arith, length-wire_header opcode mask len k)
