-- ===== src/Client/Receive/Frame.antt =====
-- `lrecv` on a frame that has arrived in full.
use skynet_server.Common.{
  ℕ, suc, ◌+◌, ◌-◌, ◌%◌, ◌≤◌, ◌<◌, ◌≡◌, refl, ap, ◌∙◌, inl, inr, true, false, not, ◌||◌, Option,
  List, [], ◌∷◌, ◌++◌, append_assoc, arith, length, take, replicate, ltb, leb, ◌==◌, tests, lt→ltb,
  Bool-cases, length-replicate,
}
use skynet_server.Common.Bytes.{Bytes, memcpy, take-memcpy, length-memcpy, take-all}
use skynet_server.Common.Int.{pos}
use skynet_server.Client.Socket.{Step, arrives, readable, left_over, cache_size}
use skynet_server.Client.Receive.{
  Received, message, complete, block_read, read_masks, read_data_len, recv_loop, lrecv,
  script_bytes,
}
use skynet_server.Netpack.Frame.{bit, length_byte, ntohs, load}
use skynet_server.Netpack.Frame.Unmask.{payload}
use skynet_server.Netpack.Frame.Wire.{IsKey, mask_bit, key, wire_header, wire, flag_bits}
use skynet_server.Client.Receive.Arrives.{block_read-arrives, read_data-arrives, read_masks-arrives}

module _ (junk : ℕ) where
  module _ (mask : Option Bytes) (body rest : Bytes) (script : List Step) (k : IsKey mask)
      (h : length body ≤ cache_size) where
    -- The message, and what is left.
    abbrev received : Received
    received = message (payload mask body) (left_over rest script)

    behind_length :
        (buffer : Bytes)
        → length buffer ≡ cache_size
        → read_masks junk
            (mask_bit mask == 128)
            (pos (length body))
            buffer
            (left_over (key mask ++ (body ++ rest)) script)
          ≡ received
    behind_length buffer e =
        read_masks-arrives junk mask (pos (length body)) (body ++ rest) script buffer k
        ∙ read_data-arrives mask body rest script buffer h e

    read_data_len-short :
        (buffer : Bytes)
        → length buffer ≡ cache_size
        → ltb (length body) 126 ≡ true
        → read_data_len junk
            (mask_bit mask == 128)
            (length body)
            buffer
            (left_over (key mask ++ (body ++ rest)) script)
          ≡ received
    unfolding read_data_len
    read_data_len-short buffer e short = rw short (behind_length buffer e)

    read_data_len-medium :
        (buffer : Bytes)
        → length buffer ≡ cache_size
        → read_data_len junk (mask_bit mask == 128) 126 buffer (
            left_over
              (length_byte (length body) 1
                ∷ length_byte (length body) 0
                ∷ (key mask ++ (body ++ rest)))
              script)
          ≡ received
    unfolding read_data_len
    read_data_len-medium buffer e =
        let field = length_byte (length body) 1 ∷ length_byte (length body) 0 ∷ [] in
        let value : ntohs (load (take 2 (memcpy buffer 0 field))) ≡ length body =
          omega (arith, h) in
        rw
          (
            block_read-arrives field (key mask ++ (body ++ rest)) script buffer (omega (arith, e)),
            value,
          )
          (behind_length (memcpy buffer 0 field)
            (length-memcpy buffer 0 field (omega (arith, e)) ∙ e))

    -- The first two bytes of a frame whose reserved bits are clear.
    recv_loop-first :
        (f opcode b1 : ℕ) (more : Bytes) (buffer : Bytes)
        → opcode < 16
        → length buffer ≡ cache_size
        → recv_loop junk (suc f) buffer (left_over ((128 + opcode) ∷ b1 ∷ more) script)
          ≡ read_data_len junk
              (bit b1 7 == 1)
              (b1 % 128)
              (memcpy buffer 0 ((128 + opcode) ∷ b1 ∷ []))
              (left_over more script)
    unfolding recv_loop
    recv_loop-first f opcode b1 more buffer o e =
        rw
          (
            block_read-arrives ((128 + opcode) ∷ b1 ∷ []) more script buffer (omega (arith, e)),
            clear,
          )
          refl
      where
        clear :
            (not (bit (128 + opcode) 6 == 0)
              || (not (bit (128 + opcode) 5 == 0) || not (bit (128 + opcode) 4 == 0)))
            ≡ false
        clear = ground (arith, o)

    recv_loop-frame :
        (f opcode : ℕ) (buffer : Bytes)
        → opcode < 16
        → length buffer ≡ cache_size
        → recv_loop junk
            (suc f)
            buffer
            (left_over (wire_header opcode mask (length body) ++ (body ++ rest)) script)
          ≡ received
    recv_loop-frame f opcode buffer o e = elim (Bool-cases (ltb (length body) 126)) [
      | inl short ↦
          let bits = flag_bits mask (length body) (omega (tests, short)) in
          rw
            (
              short,
              recv_loop-first f opcode (mask_bit mask + length body) (key mask ++ (body ++ rest))
                  buffer o e,
              bits.0,
              bits.1,
            )
            (read_data_len-short
              (memcpy buffer 0 ((128 + opcode) ∷ (mask_bit mask + length body) ∷ []))
              (stored ((128 + opcode) ∷ (mask_bit mask + length body) ∷ []) (omega arith)) short)
      | inr not_short ↦
          let bits = flag_bits mask 126 (omega arith) in
          rw
            (
              not_short,
              lt→ltb (length body) 65536 (omega (arith, h)),
              recv_loop-first f opcode (mask_bit mask + 126)
                  (length_byte (length body) 1
                    ∷ length_byte (length body) 0
                    ∷ (key mask ++ (body ++ rest)))
                  buffer o e,
              bits.0,
              bits.1,
            )
            (read_data_len-medium (memcpy buffer 0 ((128 + opcode) ∷ (mask_bit mask + 126) ∷ []))
              (stored ((128 + opcode) ∷ (mask_bit mask + 126) ∷ []) (omega arith)))
    ]
      where
        stored : (front : Bytes) → length front ≤ 2 → length (memcpy buffer 0 front) ≡ cache_size
        stored front l = length-memcpy buffer 0 front (omega (arith, e, l)) ∙ e

  -- If a frame is the next thing that arrives, in one piece, alone or with more behind it, then `lrecv`
  -- returns its payload without the mask and leaves what stands behind it: for a final frame with any
  -- opcode and a body of at most 4096 bytes, masked or not.
  pub lrecv-frame :
      (opcode : ℕ) (mask : Option Bytes) (body rest : Bytes) (script : List Step)
      → opcode < 16
      → IsKey mask
      → length body ≤ cache_size
      → lrecv junk (left_over (wire opcode mask body ++ rest) script)
        ≡ message (payload mask body) (left_over rest script)
  unfolding lrecv
  lrecv-frame opcode mask body rest script o k h =
      ap (λ f. recv_loop junk f buffer script') {y = suc (script_bytes script')} (omega arith)
      ∙ ap (λ b. recv_loop junk (suc (script_bytes script')) buffer (left_over b script))
          (append_assoc (wire_header opcode mask (length body)) body rest)
      ∙ recv_loop-frame mask body rest script k h (script_bytes script') opcode buffer o
          (length-replicate cache_size junk)
    where
      buffer : Bytes
      buffer = replicate cache_size junk

      script' : List Step
      script' = left_over (wire opcode mask body ++ rest) script

-- If the bytes that are asked for come in two pieces, `block_read` stores the second at the start of the
-- buffer, over the first: the buffer must have room for the bytes, and neither piece is empty.
pub block_read-pieces :
    (a : ℕ) (ps second rest : Bytes) (script : List Step) (buffer : Bytes)
    → length (a ∷ ps) + length second ≤ length buffer
    → 0 < length second
    → (stored : Bytes) × (block_read
          (readable (arrives (a ∷ ps)) ∷ left_over (second ++ rest) script)
          (suc (length ps + length second))
          buffer
        ≡ complete stored (left_over rest script))
      × (take (length second) stored ≡ second)
unfolding block_read
block_read-pieces a ps second rest script buffer h some_bytes = (
  memcpy first 0 second,
  rw (take-all ps (length ps + length second) (omega arith), room, more_to_come, still)
      (block_read-arrives second rest script first
        (omega (arith, h, length-memcpy buffer 0 (a ∷ ps) (omega (arith, h))))),
  take-memcpy first 0 second (length second) (omega arith) (omega arith),
)
  where
    first : Bytes
    first = memcpy buffer 0 (a ∷ ps)

    room : ltb (length buffer) (suc (length ps)) ≡ false
    room = ground (arith, h)

    more_to_come : leb (suc (length ps + length second)) (suc (length ps)) ≡ false
    more_to_come = ground (arith, some_bytes)

    still : suc (length ps + length second) - suc (length ps) ≡ length second
    still = omega arith
