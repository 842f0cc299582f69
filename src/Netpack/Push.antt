-- ===== src/Netpack/Push.antt =====
-- `push_more` of lua-websocketnetpack.c: the frames behind the first one of a piece of the stream.
use skynet_server.Common.{
  ℕ, zero, suc, ◌+◌, ◌*◌, Bool, true, false, not, ◌&&◌, Option, none, some, [], ◌∷◌, length, take,
  drop, replicate, ltb, leb, if◌then◌else◌,
}
use skynet_server.Common.Bytes.{Bytes, memcpy}
use skynet_server.Common.Int.{ℤ, pos, negsuc, ◌==ℤ◌}
use skynet_server.Netpack.Types.{Queue, Junk, Run, done, fault, out_of_fuel}
use skynet_server.Netpack.Queue.{push_data}
use skynet_server.Netpack.Frame.{Reading, read_size, decode_wsmask_data}
use skynet_server.Netpack.Handshake.{get_http_header}
use skynet_server.Netpack.Hash.{save_uncomplete}

-- MAX_PACKSIZE and HEADERSIZE
abbrev pub max_packsize : ℕ
max_packsize = 10 * 1024

abbrev pub header_array_size : ℕ
header_array_size = 1024

abbrev pub is_minus_two : ℤ → Bool
is_minus_two r = r ==ℤ negsuc 1

abbrev pub at_most_minus_two : ℤ → Bool
at_most_minus_two (pos n) = false
at_most_minus_two (negsuc n) = leb 1 n

-- `while (read_size(..) <= -2)`, or `== -2`: two bytes are dropped. With less than two bytes the
-- result is -1 and the loop ends.
unfoldable pub skip_loop : (skips : ℤ → Bool) → Bytes → Reading × Bytes
unfolding read_size
skip_loop skips [] = (read_size [], [])
skip_loop skips (b0 ∷ []) = (read_size (b0 ∷ []), b0 ∷ [])
skip_loop skips (b0 ∷ b1 ∷ rest) =
    let later = skip_loop skips rest in
    if skips (read_size (b0 ∷ b1 ∷ rest)).result
    then later
    else (read_size (b0 ∷ b1 ∷ rest), b0 ∷ b1 ∷ rest)

-- `if (pack_size > MAX_PACKSIZE) pack_size = MAX_PACKSIZE`
abbrev pub clamp : ℤ → ℤ
clamp (pos n) = if ltb max_packsize n then pos max_packsize else pos n
clamp (negsuc n) = negsuc n

abbrev pub clamped : Reading × Bytes → Reading × Bytes
clamped (r, buffer) = (record r { result = clamp r.result }, buffer)

-- The header at the front of `buffer`, and what is left of `buffer` when it has been found.
unfoldable pub find_header : (handshake : Bool) (skips : ℤ → Bool) → Bytes → Reading × Bytes
unfolding skip_loop get_http_header
find_header true skips buffer =
    (record { result = get_http_header buffer; head_length = 0; mask = none }, buffer)
find_header false skips buffer = clamped (skip_loop skips buffer)

-- `if (size > 0)`
abbrev pub if_any {ℓ} : {A : Type ℓ} → Bytes → (Bytes → A) → A → A
if_any [] go stop = stop
if_any (b ∷ rest) go stop = go (b ∷ rest)

module _ (J : Junk) where
  -- `pack_size == -1`: the bytes of the header wait in a new node. Without a handshake there is no
  -- test that they fit.
  unfoldable pub save_header : (handshake : Bool) → Option Queue → ℕ → Bytes → Run Queue
  unfolding save_uncomplete
  save_header handshake state fd buffer =
      if handshake && ltb header_array_size (length buffer)
      then done (
          save_uncomplete J.cell state fd
            (λ uc. record uc { read = negsuc 0; header = take header_array_size buffer }))
      else if ltb header_array_size (length buffer)
      then fault
      else done
          (save_uncomplete J.cell state fd (λ uc. record uc { read = negsuc 0; header = buffer }))

  -- `size < pack_size`: the part of the frame that is there waits in a new node.
  unfoldable pub save_body : Option Queue → ℕ → Reading → (pack_size : ℕ) → Bytes → Queue
  unfolding save_uncomplete decode_wsmask_data
  save_body state fd r pack_size buffer =
      let d = decode_wsmask_data buffer r.mask 0 in
      save_uncomplete J.cell state fd (λ uc. record uc {
        read = pos (length buffer);
        mask = r.mask;
        hasunmask_size = d.1;
        pack = record uc.pack {
          size = pack_size;
          buffer = memcpy (replicate pack_size J.byte) 0 d.0;
        };
      })

  -- The frame is whole: it is unmasked in place and a copy of it queued.
  unfoldable pub push_frame : Option Queue → ℕ → Reading → (pack_size : ℕ) → Bytes → Queue
  unfolding push_data decode_wsmask_data
  push_frame state fd r pack_size buffer =
      push_data J.cell state fd (decode_wsmask_data (take pack_size buffer) r.mask 0).0

  -- From `if (pack_size == -1)` on; `next` is the recursive call.
  unfoldable pub push_round :
      (next : Queue → Bytes → Run Queue) (handshake : Bool)
      → Option Queue
      → ℕ
      → ℤ
      → Reading
      → Bytes
      → Run Queue
  unfolding save_header save_body push_frame
  push_round next handshake state fd (negsuc zero) r buffer = save_header handshake state fd buffer
  push_round next handshake state fd (negsuc (suc n)) r buffer = fault
  push_round next handshake state fd (pos pack_size) r buffer =
      let body = drop r.head_length buffer in
      let left : Bytes = drop pack_size body in
      let q = push_frame state fd r pack_size body in
      if ltb (length body) pack_size && not handshake
      then done (save_body state fd r pack_size body)
      else if_any left (next q) (done q)

  unfoldable pub push_loop : ℕ → (handshake : Bool) → Option Queue → ℕ → Bytes → Run Queue
  unfolding find_header push_round
  push_loop zero handshake state fd buffer = out_of_fuel
  push_loop (suc f) handshake state fd buffer =
      let h = find_header handshake at_most_minus_two buffer in
      push_round (λ q rest. push_loop f handshake (some q) fd rest) handshake state fd h.0.result
        h.0 h.1

  -- Each call but the last takes at least two bytes.
  unfoldable pub push_more : (handshake : Bool) → Option Queue → ℕ → Bytes → Run Queue
  unfolding push_loop
  push_more handshake state fd buffer = push_loop (length buffer + 1) handshake state fd buffer
