-- ===== src/Client/Receive/Arrives.antt =====
-- The reads of `lrecv` on bytes that have arrived.
use skynet_server.Common.{
  ℕ, suc, ◌≤◌, ◌≡◌, refl, true, false, Option, none, some, List, [], ◌∷◌, ◌++◌, arith, length,
  replicate, ltb, leb, ◌==◌, length-append,
}
use skynet_server.Common.Bytes.{Bytes, memcpy, take-append, drop-append, take-memcpy}
use skynet_server.Common.Int.{ℤ, pos}
use skynet_server.Client.Socket.{Step, left_over, cache_size}
use skynet_server.Client.Receive.{message, complete, block_read, read_data, read_masks}
use skynet_server.Netpack.Frame.{decode_wsmask_data}
use skynet_server.Netpack.Frame.Unmask.{payload}
use skynet_server.Netpack.Frame.Wire.{IsKey, mask_bit, key}

-- What is asked for is there: it is stored, and the rest stays.
pub block_read-arrives :
    (got rest : Bytes) (script : List Step) (buffer : Bytes)
    → length got ≤ length buffer
    → block_read (left_over (got ++ rest) script) (length got) buffer
      ≡ complete (memcpy buffer 0 got) (left_over rest script)
unfolding block_read
block_read-arrives [] rest script buffer h = refl
block_read-arrives (b ∷ bs) rest script buffer h =
    rw (take-append bs rest (length bs) refl, drop-append bs rest, room, whole) refl
  where
    room : ltb (length buffer) (suc (length bs)) ≡ false
    room = ground (arith, h)

    whole : leb (suc (length bs)) (suc (length (bs ++ rest))) ≡ true
    whole = ground (arith, length-append bs rest)

pub read_data-arrives :
    (mask : Option Bytes) (body rest : Bytes) (script : List Step) (buffer : Bytes)
    → length body ≤ cache_size
    → length buffer ≡ cache_size
    → read_data mask (pos (length body)) buffer (left_over (body ++ rest) script)
      ≡ message (payload mask body) (left_over rest script)
unfolding read_data decode_wsmask_data
read_data-arrives none body rest script buffer h e =
    rw
      (
        block_read-arrives body rest script buffer (omega (arith, e)),
        fits,
        take-memcpy buffer 0 body (length body) (omega arith) (omega arith),
      )
      refl
  where
    fits : ltb cache_size (length body) ≡ false
    fits = ground (arith, h)
read_data-arrives (some k) body rest script buffer h e =
    rw
      (
        block_read-arrives body rest script buffer (omega (arith, e)),
        fits,
        take-memcpy buffer 0 body (length body) (omega arith) (omega arith),
      )
      refl
  where
    fits : ltb cache_size (length body) ≡ false
    fits = ground (arith, h)

module _ (junk : ℕ) where
  pub read_masks-arrives :
      (mask : Option Bytes) (z : ℤ) (rest : Bytes) (script : List Step) (buffer : Bytes)
      → IsKey mask
      → read_masks junk (mask_bit mask == 128) z buffer (left_over (key mask ++ rest) script)
        ≡ read_data mask z buffer (left_over rest script)
  unfolding read_masks
  read_masks-arrives none z rest script buffer k = refl
  read_masks-arrives (some (a ∷ b ∷ c ∷ d ∷ [])) z rest script buffer k =
      rw (block_read-arrives (a ∷ b ∷ c ∷ d ∷ []) rest script (replicate 4 junk) (omega arith)) refl
  read_masks-arrives (some []) z rest script buffer k = absurd (omega (arith, k))
  read_masks-arrives (some (a ∷ [])) z rest script buffer k = absurd (omega (arith, k))
  read_masks-arrives (some (a ∷ b ∷ [])) z rest script buffer k = absurd (omega (arith, k))
  read_masks-arrives (some (a ∷ b ∷ c ∷ [])) z rest script buffer k = absurd (omega (arith, k))
  read_masks-arrives (some (a ∷ b ∷ c ∷ d ∷ e ∷ ks)) z rest script buffer k =
      absurd (omega (arith, k))
