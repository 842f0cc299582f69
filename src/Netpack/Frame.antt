-- ===== src/Netpack/Frame.antt =====
-- Web socket frames in lua-websocketnetpack.c: `read_size` reads a header, `lpack` writes one, and
-- `decode_wsmask_data` removes a mask.
pub mod Header
pub mod Wire
pub mod Unmask
pub mod Prefix
use Prim.Native.Nat.{bit_xor}
use skynet_server.Common.{
  ℕ, zero, suc, ◌+◌, ◌-◌, ◌*◌, ◌/◌, ◌%◌, ◌^◌, Bool, true, false, not, ◌||◌, Option, none, some,
  List, [], ◌∷◌, ◌++◌, length, get_or, take, drop, ltb, ◌==◌, if◌then◌else◌,
}
use skynet_server.Common.Bytes.{Bytes}
use skynet_server.Common.Int.{ℤ, pos, negsuc}

-- WEBSOCKET_HEADER_LEN and WEBSOCKET_MASK_LEN
abbrev pub websocket_header_len : ℕ
websocket_header_len = 2

abbrev pub websocket_mask_len : ℕ
websocket_mask_len = 4

-- Bit `k` of a byte, and its low bits.
abbrev pub bit : ℕ → ℕ → ℕ
bit b k = b / 2 ^ k % 2

-- The conversion of a number to `int`.
abbrev pub to_int : ℕ → ℤ
to_int n = if ltb (n % 2 ^ 32) (2 ^ 31) then pos (n % 2 ^ 32) else negsuc (2 ^ 32 - 1 - n % 2 ^ 32)

-- The bytes of memory as a number, on a host that stores the low byte first.
abbrev pub load : Bytes → ℕ
load [] = 0
load (b ∷ bs) = b + 256 * load bs

-- Such a host's `ntohs` and `ntohl` turn the bytes round.
abbrev pub ntohs : ℕ → ℕ
ntohs x = x % 256 * 256 + x / 256 % 256

abbrev pub ntohl : ℕ → ℕ
ntohl x = ((x % 256 * 256 + x / 2 ^ 8 % 256) * 256 + x / 2 ^ 16 % 256) * 256 + x / 2 ^ 24 % 256

-- `ret |= high` fills the low half of `ret`, which is 0: it is an addition.
unfoldable pub ntoh64 : ℕ → ℕ
ntoh64 host = ntohl (host % 2 ^ 32) * 2 ^ 32 + ntohl (host / 2 ^ 32 % 2 ^ 32)

-- What `read_size` returns, and what it stores through its pointers where it gets so far: the length
-- of the header, and the mask (`ismask` is set exactly then).
pub record Reading : Type 0 where
  pub result : ℤ
  pub head_length : ℕ
  pub mask : Option Bytes

abbrev pub gives_up : ℤ → Reading
gives_up r = record { result = r; head_length = 0; mask = none }

-- From `if (is_mask)` on, with the frame's length and the offset behind it.
unfoldable pub read_mask : Bytes → (is_mask : Bool) → (pack_size : ℤ) (offset : ℕ) → Reading
read_mask buffer is_mask pack_size offset =
    if is_mask
    then (if ltb (length buffer) (offset + websocket_mask_len)
        then gives_up (negsuc 0)
        else record {
          result = pack_size;
          head_length = offset + websocket_mask_len;
          mask = some (take websocket_mask_len (drop offset buffer));
        })
    else record { result = pack_size; head_length = offset; mask = none }

-- The length: 7 bits, or the next 2 or 8 bytes, which are converted to `int`.
unfoldable pub read_length : Bytes → (is_mask : Bool) (length_bits : ℕ) → Reading
unfolding read_mask ntoh64
read_length buffer is_mask length_bits =
    if ltb length_bits 126
    then read_mask buffer is_mask (pos length_bits) websocket_header_len
    else if length_bits == 126
    then (if ltb (length buffer) (websocket_header_len + 2)
        then gives_up (negsuc 0)
        else read_mask buffer is_mask
            (to_int (ntohs (load (take 2 (drop websocket_header_len buffer)))))
            (websocket_header_len + 2))
    else if ltb (length buffer) (websocket_header_len + 8)
    then gives_up (negsuc 0)
    else read_mask buffer is_mask
        (to_int (ntoh64 (load (take 8 (drop websocket_header_len buffer)))))
        (websocket_header_len + 8)

-- -1: the header is not complete; -2: two bytes to throw away; -3: the peer closes.
unfoldable pub read_size : Bytes → Reading
unfolding read_length
read_size [] = gives_up (negsuc 0)
read_size (b0 ∷ []) = gives_up (negsuc 0)
read_size (b0 ∷ b1 ∷ rest) =
    if not (bit b0 6 == 0) || (not (bit b0 5 == 0) || not (bit b0 4 == 0))
    then gives_up (negsuc 1)
    else if (bit b0 7 == 0) || (b0 % 16 == 0)
    then gives_up (negsuc 1)
    else if b0 % 16 == 8
    then gives_up (negsuc 2)
    else read_length (b0 ∷ b1 ∷ rest) (bit b1 7 == 1) (b1 % 128)

-- `FRAME_SET_LENGTH(X64, IDX)`
abbrev pub length_byte : ℕ → ℕ → ℕ
length_byte len i = len / 2 ^ (i * 8) % 256

-- The header that `lpack` writes: FIN and the opcode of a binary frame, no mask, and the length.
unfoldable pub pack_header : ℕ → Bytes
pack_header len =
    if ltb len 126
    then 130 ∷ length_byte len 0 ∷ []
    else if ltb len 65536
    then 130 ∷ 126 ∷ length_byte len 1 ∷ length_byte len 0 ∷ []
    else 130
      ∷ 127
      ∷ length_byte len 7
      ∷ length_byte len 6
      ∷ length_byte len 5
      ∷ length_byte len 4
      ∷ length_byte len 3
      ∷ length_byte len 2
      ∷ length_byte len 1
      ∷ length_byte len 0
      ∷ []

unfoldable pub lpack : Bytes → Bytes
unfolding pack_header
lpack msg = pack_header (length msg) ++ msg

-- The loop of `decode_wsmask_data`, from the byte that stands `at` bytes into the frame on.
unfoldable pub unmask : (mask : Bytes) (at : ℕ) → Bytes → Bytes
unmask mask at [] = []
unmask mask at (b ∷ bs) =
    bit_xor b (get_or mask (at % websocket_mask_len) 0) ∷ unmask mask (at + 1) bs

-- `hasunmask_size` is how many bytes of the frame have been unmasked; it moves only with a mask.
unfoldable pub decode_wsmask_data : Bytes → (mask : Option Bytes) (hasunmask_size : ℕ) → Bytes × ℕ
unfolding unmask
decode_wsmask_data buffer none hasunmask_size = (buffer, hasunmask_size)
decode_wsmask_data buffer (some mask) hasunmask_size =
    (unmask mask hasunmask_size buffer, hasunmask_size + length buffer)
