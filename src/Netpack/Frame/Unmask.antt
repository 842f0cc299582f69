-- ===== src/Netpack/Frame/Unmask.antt =====
-- `decode_wsmask_data` on a frame that comes in parts.
use skynet_server.Common.{
  ℕ, suc, ◌+◌, ◌%◌, ◌≡◌, refl, ap, ◌∙◌, Option, none, some, [], ◌∷◌, ◌++◌, arith, length, get_or,
}
use Prim.Native.Nat.{bit_xor}
use skynet_server.Common.Bytes.{Bytes}
use skynet_server.Netpack.Frame.{unmask, decode_wsmask_data, websocket_mask_len}

-- `hasunmask_size` when `n` bytes of the frame have been unmasked.
abbrev pub counted : Option Bytes → ℕ → ℕ
counted none n = 0
counted (some mask) n = n

-- The payload of a frame of which `body` is sent.
abbrev pub payload : Option Bytes → Bytes → Bytes
payload mask body = (decode_wsmask_data body mask 0).0

unmask-append :
    (mask : Bytes) (at : ℕ) (xs ys : Bytes)
    → unmask mask at (xs ++ ys) ≡ unmask mask at xs ++ unmask mask (at + length xs) ys
unfolding unmask
unmask-append mask at [] ys = ap (λ k. unmask mask k ys) (omega arith)
unmask-append mask at (x ∷ xs) ys =
    ap (λ t. bit_xor x (get_or mask (at % websocket_mask_len) 0) ∷ t)
      (unmask-append mask (at + 1) xs ys
        ∙ ap (λ k. unmask mask (at + 1) xs ++ unmask mask k ys) (omega arith))

length-unmask : (mask : Bytes) (at : ℕ) (xs : Bytes) → length (unmask mask at xs) ≡ length xs
unfolding unmask
length-unmask mask at [] = refl
length-unmask mask at (x ∷ xs) = ap suc (length-unmask mask (at + 1) xs)

pub length-decode_wsmask_data :
    (xs : Bytes) (mask : Option Bytes) (n : ℕ) → length (decode_wsmask_data xs mask n).0 ≡ length xs
unfolding decode_wsmask_data
length-decode_wsmask_data xs none n = refl
length-decode_wsmask_data xs (some mask) n = length-unmask mask n xs

-- The count goes on by the length of the part.
pub decode_wsmask_data-counted :
    (xs : Bytes) (mask : Option Bytes) (n : ℕ)
    → (decode_wsmask_data xs mask (counted mask n)).1 ≡ counted mask (n + length xs)
unfolding decode_wsmask_data
decode_wsmask_data-counted xs none n = refl
decode_wsmask_data-counted xs (some mask) n = refl

-- The mask runs on from one part to the next: unmasking a frame in two parts gives the payload.
pub decode_wsmask_data-append :
    (mask : Option Bytes) (xs ys : Bytes)
    → payload mask (xs ++ ys)
      ≡ payload mask xs ++ (decode_wsmask_data ys mask (counted mask (length xs))).0
unfolding decode_wsmask_data
decode_wsmask_data-append none xs ys = refl
decode_wsmask_data-append (some mask) xs ys =
    unmask-append mask 0 xs ys ∙ ap (λ k. unmask mask 0 xs ++ unmask mask k ys) (omega arith)

pub counted-zero : (mask : Option Bytes) → counted mask 0 ≡ 0
counted-zero none = refl
counted-zero (some mask) = refl
