-- ===== src/Netpack/Filter.antt =====
-- `lfilter` of lua-websocketnetpack.c: a message of the socket becomes frames and events.
use skynet_server.Common.{
  ℕ, zero, suc, ◌+◌, ◌-◌, Bool, not, ◌&&◌, Option, none, some, [], ◌∷◌, ◌++◌, length, take, drop,
  replicate, ltb, leb, ◌==◌, if◌then◌else◌,
}
use skynet_server.Common.Bytes.{Bytes, memcpy}
use skynet_server.Common.Int.{ℤ, pos, negsuc}
use skynet_server.Netpack.Types.{
  Uncomplete, Queue, Junk, Answer, nothing, data_frame, more, closed, Message, received, connect,
  close, accept, error, warning, other, opened, failed, warned, Run, done, fault, out_of_fuel,
}
use skynet_server.Netpack.Queue.{push_data}
use skynet_server.Netpack.Frame.{Reading, decode_wsmask_data}
use skynet_server.Netpack.Hash.{find_uncomplete, put_uncomplete}
use skynet_server.Netpack.Push.{
  header_array_size, is_minus_two, find_header, save_header, save_body, if_any, push_frame,
  push_more,
}

-- The queue after `close_uncomplete`; the node that it finds is freed.
unfoldable pub close_uncomplete : Option Queue → ℕ → Option Queue
unfolding find_uncomplete
close_uncomplete state fd = elim (find_uncomplete state fd) [ none ↦ state | some (uc, q) ↦ some q ]

-- How the loop over a header that is not complete ends: what was read of it, its bytes, and the
-- bytes behind it.
abbrev HeaderEnd : Type 0
HeaderEnd = Reading × Bytes × Bytes

-- The loop goes on while nothing has been read and there are bytes.
unfoldable pub header_round : (next : Run HeaderEnd) → ℤ → Reading → Bytes → Bytes → Run HeaderEnd
header_round next (pos n) r header rest = done (r, header, rest)
header_round next (negsuc n) r header [] = done (r, header, [])
header_round next (negsuc n) r header (b ∷ rest) = next

-- `while (size > 0)`: byte by byte into `header`. A byte for a full array is written out of bounds,
-- also where the handshake tests `header_size` after it. With no byte `pack_size` keeps its 0.
unfoldable pub header_loop : (handshake : Bool) → Bytes → Bytes → Run HeaderEnd
unfolding find_header header_round
header_loop handshake header [] =
    done (record { result = pos 0; head_length = 0; mask = none }, header, [])
header_loop handshake header (b ∷ rest) =
    let h = find_header handshake is_minus_two (header ++ (b ∷ [])) in
    let next = header_loop handshake h.1 rest in
    if leb header_array_size (length header)
    then fault
    else header_round next h.0.result h.0 h.1 rest

module _ (J : Junk) where
  abbrev Filtered : Type 0
  Filtered = Run (Option Queue × Answer)

  -- `push_more` and the answer that there is more.
  abbrev pub then_more : Run Queue → Filtered
  then_more (done q) = done (some q, more)
  then_more fault = fault
  then_more out_of_fuel = out_of_fuel

  abbrev pub then_nothing : Run Queue → Filtered
  then_nothing (done q) = done (some q, nothing)
  then_nothing fault = fault
  then_nothing out_of_fuel = out_of_fuel

  -- From `int need` on, with `q` without the node; `read` bytes of the frame are there.
  unfoldable pub fill_body :
      (handshake : Bool) → Queue → ℕ → (read : ℕ) → Uncomplete → Bytes → Filtered
  unfolding decode_wsmask_data put_uncomplete push_data push_more
  fill_body handshake q fd read uc buffer =
      let need = uc.pack.size - read in
      let part = decode_wsmask_data buffer uc.mask uc.hasunmask_size in
      let whole =
        memcpy uc.pack.buffer read
          (decode_wsmask_data (take need buffer) uc.mask uc.hasunmask_size).0 in
      let left = drop need buffer in
      if ltb uc.pack.size read
      then fault
      else if ltb (length buffer) need
      then done (
        some (
            put_uncomplete fd
              (record uc {
                read = pos (read + length buffer);
                hasunmask_size = part.1;
                pack = record uc.pack { buffer = memcpy uc.pack.buffer read part.0 };
              })
              q),
        nothing,
      )
      else if_any left
          (λ more_data.
            then_more
              (push_more J handshake (some (push_data J.cell (some q) fd whole)) fd more_data))
          (done (some q, data_frame fd whole uc.pack.size))

  -- The header is complete: a new frame starts, into which a handshake copies its own header.
  unfoldable pub start_frame :
      (handshake : Bool)
      → Queue
      → ℕ
      → (pack_size : ℕ) → Reading
      → Bytes
      → Uncomplete
      → Bytes
      → Filtered
  unfolding fill_body
  start_frame handshake q fd pack_size r header uc rest =
      let read : ℕ =
        if handshake
        then (if ltb (length header) pack_size then length header else pack_size)
        else 0 in
      let started : Uncomplete = record uc {
        header = header;
        read = pos read;
        mask = r.mask;
        hasunmask_size = 0;
        pack = record uc.pack {
          size = pack_size;
          buffer = memcpy (replicate pack_size J.byte) 0 (take read header);
        };
      } in
      fill_body handshake q fd read started rest

  -- By `pack_size`, after the loop over the header.
  unfoldable pub header_ended :
      (handshake : Bool) → Queue → ℕ → ℤ → Reading → Bytes → Uncomplete → Bytes → Filtered
  unfolding start_frame put_uncomplete close_uncomplete
  header_ended handshake q fd (negsuc zero) r header uc rest =
      done (some (put_uncomplete fd (record uc { header = header }) q), nothing)
  header_ended handshake q fd (negsuc (suc (suc zero))) r header uc rest =
      done (close_uncomplete (some q) fd, closed fd)
  header_ended handshake q fd (negsuc n) r header uc rest = fault
  header_ended handshake q fd (pos pack_size) r header uc rest =
      start_frame handshake q fd pack_size r header uc rest

  -- `if (uc)`, by the sign of `uc->read`.
  unfoldable pub fill_uncomplete :
      (handshake : Bool) → Queue → ℕ → ℤ → Uncomplete → Bytes → Filtered
  unfolding fill_body header_loop header_ended
  fill_uncomplete handshake q fd (pos read) uc buffer = fill_body handshake q fd read uc buffer
  fill_uncomplete handshake q fd (negsuc n) uc buffer =
      elim (header_loop handshake uc.header buffer) [
        | done (r, header, rest) ↦ header_ended handshake q fd r.result r header uc rest
        | fault ↦ fault
        | out_of_fuel ↦ out_of_fuel
      ]

  -- The other branch, by `pack_size`: the piece starts with a header.
  unfoldable pub filter_round :
      (handshake : Bool) → Option Queue → ℕ → ℤ → Reading → Bytes → Filtered
  unfolding save_header save_body push_frame push_more close_uncomplete decode_wsmask_data
  filter_round handshake state fd (negsuc zero) r buffer =
      then_nothing (save_header J handshake state fd buffer)
  filter_round handshake state fd (negsuc (suc (suc zero))) r buffer =
      done (close_uncomplete state fd, closed fd)
  filter_round handshake state fd (negsuc n) r buffer = fault
  filter_round handshake state fd (pos pack_size) r buffer =
      let body = drop r.head_length buffer in
      if ltb (length body) pack_size && not handshake
      then done (some (save_body J state fd r pack_size body), nothing)
      else if length body == pack_size
      then done (state, data_frame fd (decode_wsmask_data body r.mask 0).0 (length body))
      else then_more (
          push_more J handshake (some (push_frame J state fd r pack_size body)) fd
            (drop pack_size body))

  -- `filter_data` also frees the message.
  unfoldable pub filter_data : Option Queue → ℕ → Bytes → (handshake : Bool) → Filtered
  unfolding find_uncomplete fill_uncomplete find_header filter_round
  filter_data state fd buffer handshake = elim (find_uncomplete state fd) [
    | some (uc, q) ↦ fill_uncomplete handshake q fd uc.read uc buffer
    | none ↦
        let h = find_header handshake is_minus_two buffer in
        filter_round handshake state fd h.0.result h.0 h.1
  ]

  -- `pushstring(L, buffer, size)` with the size that `lfilter` has computed: for a buffer that the
  -- message points to it is -1, which is no size.
  abbrev pub with_text : Message → (Bytes → Answer) → Option Queue → Filtered
  with_text message answer state = elim message.buffer [
    | none ↦ done (state, answer message.padding)
    | some buffer ↦ fault
  ]

  -- The switch; data in the message's padding fails the `assert`.
  unfoldable pub lfilter : Option Queue → Message → (handshake : Bool) → Filtered
  unfolding filter_data close_uncomplete
  lfilter state message handshake = elim message.type [
    | received ↦ elim message.buffer [
      | none ↦ fault
      | some buffer ↦ filter_data state message.id buffer handshake
    ]
    | connect ↦ done (state, nothing)
    | close ↦ done (close_uncomplete state message.id, closed message.id)
    | accept ↦ with_text message (opened message.ud) state
    | error ↦ with_text message (failed message.id) (close_uncomplete state message.id)
    | warning ↦ done (state, warned message.id message.ud)
    | other ↦ done (state, nothing)
  ]
