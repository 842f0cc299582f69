-- ===== src/Netpack/Stream/Fill.antt =====
-- `filter_data` where a body has begun: the bytes go behind those that were copied.
use skynet_server.Common.{
  ℕ, ◌+◌, ◌-◌, ◌≤◌, ◌<◌, ◌≡◌, refl, sym, ap, ◌∙◌, false, Option, some, ◌++◌, length, arith,
  length-append, ltb, lt→ltb,
}
use mathlib.Core.Path.{ap₂}
use skynet_server.Common.Bytes.{
  Bytes, memcpy, take-append, drop-append, take-memcpy, length-memcpy, take-all,
}
use skynet_server.Netpack.Types.{Uncomplete, Queue, Junk, nothing, data_frame, done}
use skynet_server.Netpack.Frame.{decode_wsmask_data}
use skynet_server.Netpack.Frame.Unmask.{
  payload, counted, length-decode_wsmask_data, decode_wsmask_data-counted,
  decode_wsmask_data-append,
}
use skynet_server.Netpack.Queue.{push_data}
use skynet_server.Netpack.Hash.{put_uncomplete}
use skynet_server.Netpack.Push.{if_any, push_more}
use skynet_server.Netpack.Filter.{fill_body, then_more}
use skynet_server.Netpack.Stream.{Holds, body_node}

module _ (J : Junk) (fd : ℕ) (q : Queue) (mask : Option Bytes) (len : ℕ)
    (header buffer part : Bytes) (holds : Holds mask len part buffer) where
  abbrev node : Uncomplete
  node = body_node fd mask len header buffer (length part)

  -- The unmasked bytes behind those of `part`.
  abbrev decoded : Bytes → Bytes
  decoded new = (decode_wsmask_data new mask (counted mask (length part))).0

  length-decoded : (new : Bytes) → length (decoded new) ≡ length new
  length-decoded new = length-decode_wsmask_data new mask (counted mask (length part))

  -- The copy makes the buffer hold the longer part.
  pub memcpy-Holds :
      (new : Bytes)
      → length part + length new ≤ len
      → Holds mask len (part ++ new) (memcpy buffer (length part) (decoded new))
  memcpy-Holds new fits = record {
    room =
        length-memcpy buffer (length part) (decoded new)
          (omega (arith, fits, length-decoded new, holds.room))
        ∙ holds.room;
    copied =
        take-memcpy buffer (length part) (decoded new) (length (part ++ new))
          (omega (arith, holds.room)) (omega (arith, length-append part new, length-decoded new))
        ∙ ap (λ t. t ++ decoded new) holds.copied
        ∙ sym (decode_wsmask_data-append mask part new);
  }

  -- Less than the rest of the body: all of it is copied, and the node goes back into the table.
  pub fill_body-part :
      (more : Bytes)
      → length part + length more < len
      → fill_body J false q fd (length part) node more
        ≡ done (
          some (
              put_uncomplete fd
                (body_node fd mask len header
                  (memcpy buffer (length part) (decoded more))
                  (length (part ++ more)))
                q),
          nothing,
        )
  unfolding fill_body
  fill_body-part more short =
      rw (room, lt→ltb (length more) (len - length part) (omega (arith, short)))
        (ap₂
          (λ n c. done (
            some (
                put_uncomplete fd
                  (record (body_node fd mask len header (memcpy buffer (length part) (decoded more))
                    n) { hasunmask_size = c })
                  q),
            nothing,
          ))
          grown (decode_wsmask_data-counted more mask (length part) ∙ ap (counted mask) grown))
    where
      room : ltb len (length part) ≡ false
      room = ground (arith, short)

      grown : length part + length more ≡ length (part ++ more)
      grown = sym (length-append part more)

  -- The rest of the body and what follows.
  pub fill_body-whole :
      (new rest : Bytes)
      → length part + length new ≡ len
      → fill_body J false q fd (length part) node (new ++ rest)
        ≡ if_any rest
            (λ left. then_more J (
              push_more J false
                (some (push_data J.cell (some q) fd (payload mask (part ++ new))))
                fd
                left))
            (done (some q, data_frame fd (payload mask (part ++ new)) len))
  unfolding fill_body
  fill_body-whole new rest whole =
      rw (room, need, enough, take-append new rest (length new) refl, drop-append new rest, filled)
        refl
    where
      room : ltb len (length part) ≡ false
      room = ground (arith, whole)

      need : len - length part ≡ length new
      need = omega (arith, whole)

      enough : ltb (length (new ++ rest)) (length new) ≡ false
      enough = ground (arith, length-append new rest)

      filled : memcpy buffer (length part) (decoded new) ≡ payload mask (part ++ new)
      filled =
          let h = memcpy-Holds new (omega (arith, whole)) in
          sym (
            take-all (memcpy buffer (length part) (decoded new)) (length (part ++ new))
              (omega (arith, h.room, whole, length-append part new)))
          ∙ h.copied
