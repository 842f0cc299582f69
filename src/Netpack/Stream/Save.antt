-- ===== src/Netpack/Stream/Save.antt =====
-- What the program keeps when a piece of the stream ends inside a frame.
use skynet_server.Common.{
  ℕ, ◌≤◌, ◌≡◌, ◌≢◌, refl, sym, ap, ◌∙◌, false, Option, none, some, List, [], ◌∷◌, ◌++◌, map,
  append-nil, length, arith, replicate, length-append, length-replicate, ltb,
}
use mathlib.Core.Path.{subst}
use skynet_server.Common.Bytes.{Bytes, memcpy, take-memcpy, length-memcpy}
use skynet_server.Common.Int.{pos, negsuc}
use skynet_server.Netpack.Types.{Uncomplete, Queue, Junk, done}
use skynet_server.Netpack.Frame.{decode_wsmask_data}
use skynet_server.Netpack.Frame.Wire.{header_reading}
use skynet_server.Netpack.Frame.Prefix.{wire_header-le}
use skynet_server.Netpack.Frame.Unmask.{
  counted, counted-zero, payload, length-decode_wsmask_data, decode_wsmask_data-counted,
}
use skynet_server.Netpack.Queue.{get_queue}
use skynet_server.Netpack.Queue.Refine.{IsValid, contents}
use skynet_server.Netpack.Hash.{put_uncomplete, save_uncomplete, fresh_uncomplete}
use skynet_server.Netpack.Hash.Lookup.{IsFiled, waiting, put_uncomplete_lem}
use skynet_server.Netpack.Push.{header_array_size, save_header, save_body}
use skynet_server.Netpack.Stream.{
  Sent, IsSent, header, delivered, Partly, in_header, in_body, StandsFor,
}

-- What waits for a connection of which `tail` is kept.
pub data At (fd : ℕ) (tail : Bytes) (w : Option Uncomplete) : Type 0 where
  between : tail ≡ [] → w ≡ none → At fd tail w
  partly : (p : Partly tail) (uc : Uncomplete) → StandsFor fd p uc → w ≡ some uc → At fd tail w

module _ (J : Junk) where
  -- `r` is the queue `q` after the frames `ss` of the connection, with `tail` kept of the next one.
  pub record Consumed (fd : ℕ) (q : Queue) (ss : List Sent) (tail : Bytes) (r : Queue)
      : Type 0 where
    pub valid : IsValid r
    pub filed : IsFiled r
    pub queued : contents J.cell r ≡ contents J.cell q ++ map (delivered fd) ss
    pub at : At fd tail (waiting r fd)
    pub others : (other : ℕ) → other ≢ fd → waiting r other ≡ waiting q other

  -- A valid queue in which the connection has nothing in the table.
  pub record Free (fd : ℕ) (q : Queue) : Type 0 where
    pub valid : IsValid q
    pub filed : IsFiled q
    pub free : waiting q fd ≡ none

  pub put_uncomplete-Consumed :
      (fd : ℕ) (q : Queue) (tail : Bytes) (p : Partly tail) (uc : Uncomplete)
      → Free fd q
      → StandsFor fd p uc
      → uc.pack.id ≡ fd
      → Consumed fd q [] tail (put_uncomplete fd uc q)
  put_uncomplete-Consumed fd q tail p uc f s e =
      let put = put_uncomplete_lem q fd uc f.filed f.free e in
      record {
        valid = subst IsValid (sym same) (record {
          sized = f.valid.sized;
          head_in = f.valid.head_in;
          tail_in = f.valid.tail_in;
        });
        filed = put.0;
        queued = ap (contents J.cell) same ∙ sym (append-nil (contents J.cell q));
        at = partly p uc s put.1;
        others = put.2;
      }
    where
      same : put_uncomplete fd uc q ≡ record q { hash = (put_uncomplete fd uc q).hash }
      same = (put_uncomplete_lem q fd uc f.filed f.free e).3

  pub save_header-Consumed :
      (fd : ℕ) (q : Queue) (s : Sent) (tail : Bytes) (r : ℕ) (rest : Bytes)
      → Free fd q
      → IsSent s
      → header s ≡ tail ++ (r ∷ rest)
      → (q' : Queue) × (save_header J false (some q) fd tail ≡ done q') × Consumed fd q [] tail q'
  unfolding save_header save_uncomplete get_queue
  save_header-Consumed fd q s tail r rest f i e = (
    put_uncomplete fd uc q,
    rw fits refl,
    put_uncomplete-Consumed fd q tail (in_header s r rest i e) uc f refl refl,
  )
    where
      uc : Uncomplete
      uc = record (fresh_uncomplete fd) { read = negsuc 0; header = tail }

      fits : ltb header_array_size (length tail) ≡ false
      fits = ground (
        arith,
        wire_header-le s.opcode s.mask (length s.body) i.keyed,
        ap length e,
        length-append tail (r ∷ rest),
      )

  pub save_body-Consumed :
      (fd : ℕ) (q : Queue) (s : Sent) (part : Bytes) (r : ℕ) (rest : Bytes)
      → Free fd q
      → IsSent s
      → s.body ≡ part ++ (r ∷ rest)
      → Consumed fd q [] (header s ++ part) (
          save_body J
            (some q)
            fd
            (header_reading s.mask (length s.body) (length (header s)))
            (length s.body)
            part)
  unfolding save_body save_uncomplete get_queue
  save_body-Consumed fd q s part r rest f i e =
      put_uncomplete-Consumed fd q (header s ++ part) (in_body s part r rest i refl e) uc f
        (
          [],
          memcpy blank 0 (payload s.mask part),
          ap (λ n. record uc { hasunmask_size = n }) count,
          record {
            room =
                length-memcpy blank 0 (payload s.mask part)
                  (omega (arith, shorter, length-replicate (length s.body) J.byte))
                ∙ length-replicate (length s.body) J.byte;
            copied =
                take-memcpy blank 0 (payload s.mask part) (length part) (omega arith)
                  (omega (arith, length-decode_wsmask_data part s.mask 0));
          },
        )
        refl
    where
      blank : Bytes
      blank = replicate (length s.body) J.byte

      uc : Uncomplete
      uc = record (fresh_uncomplete fd) {
        read = pos (length part);
        mask = s.mask;
        hasunmask_size = (decode_wsmask_data part s.mask 0).1;
        pack = record {
          id = fd;
          size = length s.body;
          buffer = memcpy blank 0 (payload s.mask part);
        };
      }

      count : (decode_wsmask_data part s.mask 0).1 ≡ counted s.mask (length part)
      count =
          ap (λ n. (decode_wsmask_data part s.mask n).1) (sym (counted-zero s.mask))
          ∙ decode_wsmask_data-counted part s.mask 0
          ∙ ap (counted s.mask) (omega arith)

      shorter : length (payload s.mask part) ≤ length s.body
      shorter = omega (
        arith,
        length-decode_wsmask_data part s.mask 0,
        ap length e,
        length-append part (r ∷ rest),
      )
