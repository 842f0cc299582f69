-- ===== src/Exchange/Piece.antt =====
-- One piece of an opening handshake in the splitter of the server.
use skynet_server.Common.{
  ℕ, zero, suc, ◌+◌, ◌-◌, ◌≤◌, ◌<◌, ◌≡◌, ◌≢◌, refl, ap, ◌∙◌, true, false, Option, none, some, [],
  ◌∷◌, ◌++◌, append-nil, arith, length, drop, take, replicate, length-replicate, ltb, if◌then◌else◌,
}
use skynet_server.Common.Bytes.{Bytes, memcpy, take-all}
use skynet_server.Common.Int.{ℤ, pos, negsuc}
use skynet_server.Netpack.Types.{
  Uncomplete, Queue, Junk, Answer, nothing, data_frame, Run, done, fault, out_of_fuel,
}
use skynet_server.Netpack.Frame.{Reading, decode_wsmask_data}
use skynet_server.Netpack.Queue.{get_queue}
use skynet_server.Netpack.Handshake.{get_http_header}
use skynet_server.Netpack.Hash.{find_uncomplete, put_uncomplete, save_uncomplete}
use skynet_server.Netpack.Hash.Lookup.{waiting, IsFiled, put_uncomplete_lem}
use skynet_server.Netpack.Queue.{push_data}
use skynet_server.Netpack.Push.{
  if_any, push_more, header_array_size, find_header, is_minus_two, save_header,
}
use skynet_server.Netpack.Filter.{
  then_more, fill_body, start_frame, header_ended, fill_uncomplete, filter_round, filter_data,
}
use skynet_server.Netpack.Stream.{header_node}
use skynet_server.Exchange.Loop.{Quiet, reading, header_loop-Quiet}

drop-all : (xs : Bytes) (n : ℕ) → length xs ≤ n → drop n xs ≡ []
drop-all [] zero h = refl
drop-all [] (suc n) h = refl
drop-all (x ∷ xs) zero h = absurd (omega arith)
drop-all (x ∷ xs) (suc n) h = drop-all xs n (omega arith)

-- The frame that a handshake copies out of its own header.
copied :
    (text blank : Bytes)
    → length blank ≡ length text
    → memcpy (memcpy blank 0 (take (length text) text)) (length text) [] ≡ text
copied text blank e =
    ap (λ t. memcpy t (length text) []) whole
    ∙ ap (λ t. take (length text) text ++ t) (drop-all text (length text + 0) (omega arith))
    ∙ append-nil (take (length text) text)
    ∙ take-all text (length text) (omega arith)
  where
    whole : memcpy blank 0 (take (length text) text) ≡ text
    whole =
        ap (λ t. t ++ drop (0 + length t) blank) (take-all text (length text) (omega arith))
        ∙ ap (λ t. text ++ t) (drop-all blank (0 + length text) (omega (arith, e)))
        ∙ append-nil text

-- `r` is `q` with this kept of the connection, and nothing else changed.
pub record Kept (fd : ℕ) (q : Queue) (node : Option Uncomplete) (r : Queue) : Type 0 where
  pub filed : IsFiled r
  pub at : waiting r fd ≡ node
  pub others : (other : ℕ) → other ≢ fd → waiting r other ≡ waiting q other
  pub ring : r ≡ record q { hash = r.hash }

module _ (J : Junk) where
  -- The node that a handshake of a whole text makes, of which `read` bytes are copied.
  abbrev started : Bytes → Uncomplete → ℕ → Uncomplete
  started text uc read = record uc {
    header = text;
    read = pos read;
    mask = none;
    hasunmask_size = 0;
    pack = record uc.pack {
      size = length text;
      buffer = memcpy (replicate (length text) J.byte) 0 (take read text);
    };
  }

  fill_body-whole :
      (q : Queue) (fd : ℕ) (text : Bytes) (uc : Uncomplete)
      → fill_body J true q fd (length text) (started text uc (length text)) []
        ≡ done (some q, data_frame fd text (length text))
  unfolding fill_body decode_wsmask_data
  fill_body-whole q fd text uc =
      ap (λ c. if c then fault else by_need (length text - length text))
        {x = ltb (length text) (length text)} {y = false} (ground arith)
      ∙ ap by_need {x = length text - length text} {y = 0} (omega arith)
      ∙ ap (λ t. done (some q, data_frame fd t (length text)))
          (copied text (replicate (length text) J.byte) (length-replicate (length text) J.byte))
    where
      node : Uncomplete
      node = started text uc (length text)

      by_need : ℕ → Run (Option Queue × Answer)
      by_need need =
          if ltb 0 need
          then done (
            some (
                put_uncomplete fd
                  (record node {
                    read = pos (length text + 0);
                    pack = record node.pack { buffer = memcpy node.pack.buffer (length text) [] };
                  })
                  q),
            nothing,
          )
          else if_any (drop need [])
              (λ more_data. then_more J (
                push_more J true
                  (some (
                    push_data J.cell (some q) fd
                      (memcpy node.pack.buffer (length text) (take need []))))
                  fd more_data))
              (done (
                some q,
                data_frame fd (memcpy node.pack.buffer (length text) (take need [])) (length text),
              ))

  start_frame-whole :
      (q : Queue) (fd : ℕ) (r : Reading) (text : Bytes) (uc : Uncomplete)
      → r.mask ≡ none
      → start_frame J true q fd (length text) r text uc []
        ≡ done (some q, data_frame fd text (length text))
  unfolding start_frame
  start_frame-whole q fd r text uc bare =
      ap (λ m. fill_body J true q fd read (record (started text uc read) { mask = m }) []) bare
      ∙ ap (λ (n : ℕ). fill_body J true q fd n (started text uc n) []) {y = length text}
          (ground arith)
      ∙ fill_body-whole q fd text uc
    where
      read : ℕ
      read = if ltb (length text) (length text) then length text else length text

  pub put-Kept :
      (q r : Queue) (fd : ℕ) (text : Bytes)
      → Kept fd q none r
      → Kept fd q (some (header_node fd text)) (put_uncomplete fd (header_node fd text) r)
  put-Kept q r fd text k =
      let put = put_uncomplete_lem r fd (header_node fd text) k.filed k.at refl in
      record {
        filed = put.0;
        at = put.1;
        others = λ other ne. put.2 other ne ∙ k.others other ne;
        ring =
            put.3
            ∙ ap
                (λ (s : Queue). record s {
                  hash = (put_uncomplete fd (header_node fd text) r).hash;
                })
                k.ring;
      }

  -- The first piece, without an empty line, waits in a new node.
  pub first_piece :
      (q : Queue) (fd : ℕ) (piece : Bytes)
      → find_uncomplete (some q) fd ≡ none
      → get_http_header piece ≡ negsuc 0
      → length piece ≤ header_array_size
      → filter_data J (some q) fd piece true
        ≡ done (some (put_uncomplete fd (header_node fd piece) q), nothing)
  unfolding filter_data find_header filter_round save_header save_uncomplete get_queue
  first_piece q fd piece free quiet fits =
      ap
        (λ (o : Option (Uncomplete × Queue)). elim o [
          | some (uc, r) ↦ fill_uncomplete J true r fd uc.read uc piece
          | none ↦ shaking (get_http_header piece)
        ])
        free
      ∙ ap shaking quiet
      ∙ rw room refl
    where
      shaking : ℤ → Run (Option Queue × Answer)
      shaking z =
          filter_round J true (some q) fd z (record { result = z; head_length = 0; mask = none })
            piece

      room : ltb header_array_size (length piece) ≡ false
      room = ground (arith, fits)

  -- Another piece, behind what is kept.
  pub next_piece :
      (q r : Queue) (fd : ℕ) (before piece : Bytes)
      → find_uncomplete (some q) fd ≡ some (header_node fd before, r)
      → 0 < length piece
      → length (before ++ piece) ≤ header_array_size
      → Quiet (before ++ piece)
      → filter_data J (some q) fd piece true
        ≡ header_ended J true r fd
            (get_http_header (before ++ piece))
            (reading (before ++ piece))
            (before ++ piece)
            (header_node fd before)
            []
  unfolding filter_data fill_uncomplete
  next_piece q r fd before piece kept some_bytes fits quiet =
      ap
        (λ (o : Option (Uncomplete × Queue)). elim o [
          | some (uc, s) ↦ fill_uncomplete J true s fd uc.read uc piece
          | none ↦
              let h = find_header true is_minus_two piece in
              filter_round J true (some q) fd h.0.result h.0 h.1
        ])
        kept
      ∙ ap
          (λ (o : Run (Reading × Bytes × Bytes)). elim o [
            | done (g, header, rest) ↦
                header_ended J true r fd g.result g header (header_node fd before) rest
            | fault ↦ fault
            | out_of_fuel ↦ out_of_fuel
          ])
          (header_loop-Quiet before piece some_bytes fits quiet)

  pub ended-waiting :
      (r : Queue) (fd : ℕ) (g : Reading) (before text : Bytes) (z : ℤ)
      → z ≡ negsuc 0
      → header_ended J true r fd z g text (header_node fd before) []
        ≡ done (some (put_uncomplete fd (header_node fd text) r), nothing)
  unfolding header_ended
  ended-waiting r fd g before text z e =
      ap (λ y. header_ended J true r fd y g text (header_node fd before) []) e

  pub ended-whole :
      (r : Queue) (fd : ℕ) (g : Reading) (before text : Bytes) (z : ℤ)
      → z ≡ pos (length text)
      → g.mask ≡ none
      → header_ended J true r fd z g text (header_node fd before) []
        ≡ done (some r, data_frame fd text (length text))
  unfolding header_ended
  ended-whole r fd g before text z e bare =
      ap (λ y. header_ended J true r fd y g text (header_node fd before) []) e
      ∙ start_frame-whole r fd g text (header_node fd before) bare
