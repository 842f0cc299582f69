-- ===== src/Exchange/Request.antt =====
-- The splitter of the server on an opening handshake that comes in pieces.
use skynet_server.Common.{
  ℕ, ◌≤◌, ◌<◌, ◌≡◌, refl, sym, ap, ◌∙◌, true, Option, none, some, List, [], ◌∷◌, ◌++◌, append_assoc,
  append-nil, arith, length, length-append,
}
use skynet_server.Common.Bytes.{Bytes}
use skynet_server.Netpack.Types.{
  Uncomplete, Queue, Junk, Answer, nothing, data_frame, Run, done, fault, out_of_fuel,
}
use skynet_server.Netpack.Handshake.{blank_line, get_http_header}
use skynet_server.Netpack.Hash.{find_uncomplete, put_uncomplete}
use skynet_server.Netpack.Hash.Lookup.{waiting, IsFiled, missing, found, find_uncomplete-View}
use skynet_server.Netpack.Push.{header_array_size}
use skynet_server.Netpack.Filter.{header_ended, filter_data}
use skynet_server.Netpack.Stream.{header_node}
use skynet_server.Netpack.Stream.Shake.{get_http_header-end, filter_data-handshake}
use skynet_server.Netpack.Stream.Feed.{AllNonempty, joined}
use skynet_server.Exchange.Answer.{IsHeader, part-nowhere}
use skynet_server.Exchange.Piece.{
  Kept, put-Kept, first_piece, next_piece, ended-waiting, ended-whole,
}
use skynet_server.Exchange.Loop.{Quiet, reading}

module _ (J : Junk) where
  abbrev Shaking : Type 0
  Shaking = Run (Queue × List Answer)

  abbrev answer_before : Answer → Shaking → Shaking
  answer_before a (done (q, answers)) = done (q, a ∷ answers)
  answer_before a fault = fault
  answer_before a out_of_fuel = out_of_fuel

  abbrev shake_round : (next : Queue → Shaking) → Run (Option Queue × Answer) → Shaking
  shake_round next (done (some r, a)) = answer_before a (next r)
  shake_round next (done (none, a)) = fault
  shake_round next fault = fault
  shake_round next out_of_fuel = out_of_fuel

  -- `filter_data` in a handshake on each piece, with its answers.
  abbrev pub shake : ℕ → List Bytes → Queue → Shaking
  shake fd [] q = done (q, [])
  shake fd (piece ∷ pieces) q = shake_round (shake fd pieces) (filter_data J (some q) fd piece true)

-- Nothing for each piece but the last.
abbrev pub at_last : Answer → List Bytes → List Answer
at_last a [] = []
at_last a (piece ∷ []) = a ∷ []
at_last a (piece ∷ next ∷ pieces) = nothing ∷ at_last a (next ∷ pieces)

Kept-trans :
    (fd : ℕ) (q r s : Queue) (m n : Option Uncomplete)
    → Kept fd q m r
    → Kept fd r n s
    → Kept fd q n s
Kept-trans fd q r s m n k l = record {
  filed = l.filed;
  at = l.at;
  others = λ other ne. l.others other ne ∙ k.others other ne;
  ring = l.ring ∙ ap (λ (t : Queue). record t { hash = s.hash }) k.ring;
}

not_kept :
    (q : Queue) (fd : ℕ) → IsFiled q → waiting q fd ≡ none → find_uncomplete (some q) fd ≡ none
not_kept q fd filed free = elim (find_uncomplete-View q fd filed) [
  | missing e f ↦ e
  | found uc r e f i g others v ring ↦ absurd (cc)
]

part-Quiet :
    (text more head : Bytes) → IsHeader head → text ++ more ≡ head ++ blank_line → Quiet text
part-Quiet text more head never e part rest f h =
    part-nowhere part (rest ++ more) head (omega (arith, h, length-append rest more))
      (sym (append_assoc part rest more) ∙ ap (λ t. t ++ more) f ∙ e) never

module _ (J : Junk) (fd : ℕ) (head : Bytes) (never : IsHeader head)
    (fits : length (head ++ blank_line) ≤ header_array_size) where
  -- The handshake ends with the header, and nothing is kept of the connection.
  abbrev pub Shakes : Queue → List Bytes → Type 0
  Shakes q pieces =
      (r : Queue) × (shake J fd pieces q
        ≡ done
            (r, at_last (data_frame fd (head ++ blank_line) (length (head ++ blank_line))) pieces))
      × Kept fd q none r

  Shakes-cons :
      (q r : Queue) (piece next : Bytes) (pieces : List Bytes) (node : Option Uncomplete)
      → filter_data J (some q) fd piece true ≡ done (some r, nothing)
      → Kept fd q node r
      → Shakes r (next ∷ pieces)
      → Shakes q (piece ∷ next ∷ pieces)
  Shakes-cons q r piece next pieces node e k s = (
    s.0,
    ap (shake_round J (shake J fd (next ∷ pieces))) e ∙ ap (answer_before J nothing) s.1,
    Kept-trans fd q r s.0 node none k s.2,
  )

  taken-Kept :
      (q : Queue) (before : Bytes)
      → IsFiled q
      → waiting q fd ≡ some (header_node fd before)
      → (r : Queue) × (find_uncomplete (some q) fd ≡ some (header_node fd before, r))
        × Kept fd q none r
  taken-Kept q before filed w = elim (find_uncomplete-View q fd filed) [
    | missing e f ↦ absurd (cc)
    | found uc r e f i g others v ring ↦
        let same : uc ≡ header_node fd before = cc in
        (
          r,
          e ∙ ap (λ (u : Uncomplete). some (u, r)) same,
          record { filed = v; at = g; others = others; ring = ring },
        )
  ]

  more_pieces :
      (q : Queue) (before piece : Bytes) (pieces : List Bytes)
      → IsFiled q
      → waiting q fd ≡ some (header_node fd before)
      → before ++ joined (piece ∷ pieces) ≡ head ++ blank_line
      → AllNonempty (piece ∷ pieces)
      → Shakes q (piece ∷ pieces)
  more_pieces q before piece [] filed w e (some_bytes, none_more) =
      let whole : before ++ piece ≡ head ++ blank_line =
        ap (λ t. before ++ t) (sym (append-nil piece)) ∙ e in
      let t = taken-Kept q before filed w in
      (
        t.0,
        ap (shake_round J (shake J fd [])) (
            next_piece J q t.0 fd before piece t.1 some_bytes (omega (arith, fits, ap length whole))
              (part-Quiet (before ++ piece) [] head never (append-nil (before ++ piece) ∙ whole))
            ∙ ap
                (λ s.
                  header_ended J true t.0 fd (get_http_header s) (reading s) s
                    (header_node fd before) [])
                whole
            ∙ ended-whole J t.0 fd (reading (head ++ blank_line)) before (head ++ blank_line)
                (get_http_header (head ++ blank_line)) (get_http_header-end head never) refl),
        t.2,
      )
  more_pieces q before piece (next ∷ pieces) filed w e (some_bytes, more) =
      let split : (before ++ piece) ++ joined (next ∷ pieces) ≡ head ++ blank_line =
        append_assoc before piece (joined (next ∷ pieces)) ∙ e in
      let left : 0 < length (joined (next ∷ pieces)) =
        omega (arith, more.0, length-append next (joined pieces)) in
      let total = length-append (before ++ piece) (joined (next ∷ pieces)) in
      let t = taken-Kept q before filed w in
      let k = put-Kept J q t.0 fd (before ++ piece) t.2 in
      Shakes-cons q (put_uncomplete fd (header_node fd (before ++ piece)) t.0) piece next pieces
        (some (header_node fd (before ++ piece)))
        (next_piece J q t.0 fd before piece t.1 some_bytes
            (omega (arith, fits, ap length split, total))
            (part-Quiet (before ++ piece) (joined (next ∷ pieces)) head never split)
          ∙ ended-waiting J t.0 fd (reading (before ++ piece)) before (before ++ piece)
              (get_http_header (before ++ piece))
              (part-nowhere (before ++ piece) (joined (next ∷ pieces)) head left split never))
        k
        (more_pieces (put_uncomplete fd (header_node fd (before ++ piece)) t.0) (before ++ piece)
          next pieces k.filed k.at split more)

  -- An HTTP header (it ends with an empty line and has none before) of at most 1024 bytes that arrives in
  -- pieces, none empty, on a connection of which nothing is kept, in a table in which no chain has two
  -- nodes of one connection: `filter_data` in a handshake answers nothing to each piece but the last, and
  -- to that with the whole header; in the end nothing is kept of the connection, and what is kept of
  -- others and the frames that wait are as before.
  pub filter_data-Shakes :
      (q : Queue) (piece : Bytes) (pieces : List Bytes)
      → IsFiled q
      → waiting q fd ≡ none
      → joined (piece ∷ pieces) ≡ head ++ blank_line
      → AllNonempty (piece ∷ pieces)
      → Shakes q (piece ∷ pieces)
  filter_data-Shakes q piece [] filed free e nonempty = (
    q,
    ap (λ p. shake_round J (shake J fd []) (filter_data J (some q) fd p true))
          (sym (append-nil piece) ∙ e)
        ∙ ap (shake_round J (shake J fd []))
            (filter_data-handshake J q fd head (not_kept q fd filed free) never),
    record { filed = filed; at = free; others = λ other ne. refl; ring = refl },
  )
  filter_data-Shakes q piece (next ∷ pieces) filed free e (some_bytes, more) =
      let left : 0 < length (joined (next ∷ pieces)) =
        omega (arith, more.0, length-append next (joined pieces)) in
      let k =
        put-Kept J q q fd piece
          (record { filed = filed; at = free; others = λ other ne. refl; ring = refl }) in
      Shakes-cons q (put_uncomplete fd (header_node fd piece) q) piece next pieces
        (some (header_node fd piece))
        (first_piece J q fd piece (not_kept q fd filed free)
          (part-nowhere piece (joined (next ∷ pieces)) head left e never)
          (omega (arith, fits, ap length e, length-append piece (joined (next ∷ pieces)))))
        k
        (more_pieces (put_uncomplete fd (header_node fd piece) q) piece next pieces k.filed k.at e
          more)
