-- ===== src/Netpack/Frame/Wire.antt =====
-- A frame as RFC 6455 lays it out, with any length and with or without a mask, against `read_size`.
use skynet_server.Common.{
  ℕ, ◌+◌, ◌*◌, ◌/◌, ◌%◌, ◌^◌, ◌<◌, ◌≡◌, ◌≢◌, refl, ap, ◌∙◌, inl, inr, false, Option, none, some, [],
  ◌∷◌, ◌++◌, append_assoc, arith, length, take, drop, ltb, ◌==◌, if◌then◌else◌, Bool-cases,
  length-append, lt→ltb, tests,
}
use skynet_server.Common.Bytes.{Bytes, drop-append, take-append}
use skynet_server.Common.Int.{ℤ, pos}
use skynet_server.Netpack.Frame.Header.{to_int-pos, ntoh64-load, join8}
use skynet_server.Netpack.Frame.{
  bit, read_size, read_length, read_mask, ntoh64, ntohs, load, pack_header, lpack, Reading,
  length_byte,
}

-- The mask bit and the key behind the length.
abbrev pub mask_bit : Option Bytes → ℕ
mask_bit none = 0
mask_bit (some key) = 128

abbrev pub key : Option Bytes → Bytes
key none = []
key (some k) = k

abbrev pub IsKey : Option Bytes → Type 0
IsKey mask = length (key mask) ≡ mask_bit mask / 32

-- The shortest of the three forms of the length, which takes in the mask bit.
abbrev pub length_field : (flag len : ℕ) → Bytes
length_field flag len =
    if ltb len 126
    then (flag + len) ∷ []
    else if ltb len 65536
    then (flag + 126) ∷ length_byte len 1 ∷ length_byte len 0 ∷ []
    else (flag + 127)
      ∷ length_byte len 7
      ∷ length_byte len 6
      ∷ length_byte len 5
      ∷ length_byte len 4
      ∷ length_byte len 3
      ∷ length_byte len 2
      ∷ length_byte len 1
      ∷ length_byte len 0
      ∷ []

abbrev pub wire_header : (opcode : ℕ) → Option Bytes → ℕ → Bytes
wire_header opcode mask len = (128 + opcode) ∷ (length_field (mask_bit mask) len ++ key mask)

-- `body` is the payload as it is sent: masked, if there is a mask.
abbrev pub wire : (opcode : ℕ) → Option Bytes → Bytes → Bytes
wire opcode mask body = wire_header opcode mask (length body) ++ body

-- `read_mask` behind a header of `offset` bytes.
pub read_mask-key :
    (front : Bytes) (mask : Option Bytes) (rest : Bytes) (z : ℤ) (offset : ℕ)
    → IsKey mask
    → offset ≡ length front
    → read_mask (front ++ (key mask ++ rest)) (mask_bit mask == 128) z offset
      ≡ record { result = z; head_length = offset + length (key mask); mask = mask }
unfolding read_mask
read_mask-key front none rest z offset h e =
    let same : offset + 0 ≡ offset = omega arith in rw same refl
read_mask-key front (some k) rest z offset h e =
    let got : take 4 (drop offset (front ++ (k ++ rest))) ≡ k =
      rw (e, drop-append front (k ++ rest)) (take-append k rest 4 (omega arith)) in
    rw got (ground (arith, length-append front (k ++ rest), length-append k rest))

pub flag_bits :
    (mask : Option Bytes) (n : ℕ)
    → n < 128
    → ((bit (mask_bit mask + n) 7 == 1) ≡ (mask_bit mask == 128)) × ((mask_bit mask + n) % 128 ≡ n)
flag_bits none n h = (ground arith, omega arith)
flag_bits (some k) n h = (ground arith, omega arith)

-- The first byte is accepted, so the reading goes on with the length.
pub read_size-first :
    (opcode b1 : ℕ) (rest : Bytes)
    → 0 < opcode
    → opcode < 16
    → opcode ≢ 8
    → read_size ((128 + opcode) ∷ b1 ∷ rest)
      ≡ read_length ((128 + opcode) ∷ b1 ∷ rest) (bit b1 7 == 1) (b1 % 128)
unfolding read_size
read_size-first opcode b1 rest h h' ne = ground arith

-- The length in eight bytes, the high one first.
abbrev pub eight : ℕ → Bytes
eight len =
    length_byte len 7
    ∷ length_byte len 6
    ∷ length_byte len 5
    ∷ length_byte len 4
    ∷ length_byte len 3
    ∷ length_byte len 2
    ∷ length_byte len 1
    ∷ length_byte len 0
    ∷ []

ntoh64-eight : (len : ℕ) → len < 2 ^ 31 → ntoh64 (load (eight len)) ≡ len
ntoh64-eight len h =
    ntoh64-load (length_byte len 7) (length_byte len 6) (length_byte len 5) (length_byte len 4)
      (length_byte len 3) (length_byte len 2) (length_byte len 1) (length_byte len 0) (omega arith)
      (omega arith) (omega arith) (omega arith) (omega arith) (omega arith) (omega arith)
      (omega arith)
    ∙ join8 len h

-- What reading a header must give.
abbrev pub header_reading : Option Bytes → (len head_length : ℕ) → Reading
header_reading mask len head_length = record {
  result = pos len;
  head_length = head_length;
  mask = mask;
}

module _ (b0 : ℕ) (mask : Option Bytes) (len : ℕ) (rest : Bytes) (k : IsKey mask) where
  read_length-short :
      len < 126
      → read_length (b0 ∷ (mask_bit mask + len) ∷ (key mask ++ rest)) (mask_bit mask == 128) len
        ≡ header_reading mask len (2 + length (key mask))
  unfolding read_length
  read_length-short h =
      rw (lt→ltb len 126 h)
        (read_mask-key (b0 ∷ (mask_bit mask + len) ∷ []) mask rest (pos len) 2 k refl)

  read_length-medium :
      len < 65536
      → read_length
          (b0 ∷ (mask_bit mask + 126) ∷ length_byte len 1 ∷ length_byte len 0 ∷ (key mask ++ rest))
          (mask_bit mask == 128)
          126
        ≡ header_reading mask len (4 + length (key mask))
  unfolding read_length
  read_length-medium h =
      let value : ntohs (length_byte len 1 + 256 * (length_byte len 0 + 256 * 0)) ≡ len =
        omega arith in
      let room : ltb
            (length (
              b0
              ∷ (mask_bit mask + 126)
              ∷ length_byte len 1
              ∷ length_byte len 0
              ∷ (key mask ++ rest)))
            4
          ≡ false =
        ground arith in
      rw (room, value, to_int-pos len (omega arith))
        (read_mask-key (b0 ∷ (mask_bit mask + 126) ∷ length_byte len 1 ∷ length_byte len 0 ∷ [])
          mask rest (pos len) 4 k refl)

  read_length-long :
      len < 2 ^ 31
      → read_length
          (b0 ∷ (mask_bit mask + 127) ∷ (eight len ++ (key mask ++ rest)))
          (mask_bit mask == 128)
          127
        ≡ header_reading mask len (10 + length (key mask))
  unfolding read_length
  read_length-long h =
      let room : ltb (length (b0 ∷ (mask_bit mask + 127) ∷ (eight len ++ (key mask ++ rest)))) 10
          ≡ false =
        ground arith in
      rw (room, ntoh64-eight len h, to_int-pos len h)
        (read_mask-key (b0 ∷ (mask_bit mask + 127) ∷ eight len) mask rest (pos len) 10 k refl)

-- `read_size` reads any header of a final frame that carries data: the length, where the payload
-- starts and the key.
pub read_size-wire_header :
    (opcode : ℕ) (mask : Option Bytes) (len : ℕ) (rest : Bytes)
    → 0 < opcode
    → opcode < 16
    → opcode ≢ 8
    → IsKey mask
    → len < 2 ^ 31
    → read_size (wire_header opcode mask len ++ rest)
      ≡ header_reading mask len (length (wire_header opcode mask len))
read_size-wire_header opcode mask len rest o o' ne k h = elim (Bool-cases (ltb len 126)) [
  | inl short ↦
      rw
        (
          short,
          read_size-first opcode (mask_bit mask + len) (key mask ++ rest) o o' ne,
          (flag_bits mask len (omega (tests, short))).0,
          (flag_bits mask len (omega (tests, short))).1,
        )
        (read_length-short (128 + opcode) mask len rest k (omega (tests, short))
          ∙ ap (header_reading mask len) (omega arith))
  | inr not_short ↦ elim (Bool-cases (ltb len 65536)) [
    | inl medium ↦
        rw
          (
            not_short,
            medium,
            read_size-first opcode (mask_bit mask + 126)
                (length_byte len 1 ∷ length_byte len 0 ∷ (key mask ++ rest)) o o' ne,
            (flag_bits mask 126 (omega arith)).0,
            (flag_bits mask 126 (omega arith)).1,
          )
          (read_length-medium (128 + opcode) mask len rest k (omega (tests, medium))
            ∙ ap (header_reading mask len) (omega arith))
    | inr not_medium ↦
        rw
          (
            not_short,
            not_medium,
            read_size-first opcode (mask_bit mask + 127) (eight len ++ (key mask ++ rest)) o o' ne,
            (flag_bits mask 127 (omega arith)).0,
            (flag_bits mask 127 (omega arith)).1,
          )
          (read_length-long (128 + opcode) mask len rest k h
            ∙ ap (header_reading mask len) (omega arith))
  ]
]

-- `lpack` writes a binary frame with no mask.
pub lpack_lem : (msg : Bytes) → lpack msg ≡ wire 2 none msg
unfolding lpack pack_header
lpack_lem msg = elim (Bool-cases (ltb (length msg) 126)) [
  | inl short ↦
      let byte : length msg / 1 % 256 ≡ 0 + length msg = omega (tests, short) in
      rw (short, byte) refl
  | inr not_short ↦ elim (Bool-cases (ltb (length msg) 65536)) [
    | inl medium ↦ rw (not_short, medium) refl
    | inr not_medium ↦ rw (not_short, not_medium) refl
  ]
]

-- On a message of less than 2^31 bytes that `lpack` packed, with any bytes behind it, `read_size` gives
-- its length, no mask and the offset at which the message starts.
pub lpack-read_size :
    (msg rest : Bytes)
    → length msg < 2 ^ 31
    → ((read_size (lpack msg ++ rest)).result ≡ pos (length msg))
      × ((read_size (lpack msg ++ rest)).mask ≡ none)
      × (drop (read_size (lpack msg ++ rest)).head_length (lpack msg ++ rest) ≡ msg ++ rest)
lpack-read_size msg rest h =
    rw
      (
        lpack_lem msg,
        append_assoc (wire_header 2 none (length msg)) msg rest,
        read_size-wire_header 2 none (length msg) (msg ++ rest) (omega arith) (omega arith)
            (omega arith) refl h,
      )
      (refl, refl, drop-append (wire_header 2 none (length msg)) (msg ++ rest))
