-- ===== src/Exchange/Answer.antt =====
-- The client waits for the answer to its handshake until the empty line has arrived.
use skynet_server.Common.{
  ℕ, zero, suc, ◌+◌, ◌-◌, ◌≤◌, ◌<◌, ◌≡◌, refl, sym, ap, ◌∙◌, inl, inr, true, false, Option, none,
  some, List, [], ◌∷◌, ◌++◌, append_assoc, append-nil, arith, length, length-append, drop,
  length-drop, ltb, ◌==◌, if◌then◌else◌, tests, Bool-cases,
}
use skynet_server.Common.Bytes.{Bytes, take-all}
use skynet_server.Common.Int.{ℤ, pos, negsuc}
use skynet_server.Netpack.Handshake.{blank_line, search_from, websocket_strnpos, get_http_header}
use skynet_server.Netpack.Handshake.Search.{Occurs, at_first, nowhere, websocket_strnpos-View}
use skynet_server.Netpack.Stream.Shake.{get_http_header-end}
use skynet_server.Netpack.Stream.Feed.{AllNonempty, joined}
use skynet_server.Client.Socket.{Receiving, arrives, cache_size}
use skynet_server.Client.Receive.{
  Shaken, with_rest, rest_first, shaken, beyond_buffer, after_search, http_place,
  client_http_header, recv_websocket_header_response,
}

-- A header: it ends with an empty line and has none before.
abbrev pub IsHeader : Bytes → Type 0
IsHeader head = (j : ℕ) → j < length head → ¬ Occurs blank_line (head ++ blank_line) j

-- From three bytes on the search of the client is that of the server.
client_http_header-same :
    (buffer : Bytes) → 3 ≤ length buffer → client_http_header buffer ≡ some (get_http_header buffer)
unfolding client_http_header get_http_header websocket_strnpos search_from
client_http_header-same buffer h =
    ap (λ b. if b then none else if length buffer == 2 then none else http_place place)
      (differs 1 (omega arith))
    ∙ ap (λ b. if b then none else http_place place) (differs 2 (omega arith))
    ∙ same
  where
    place : Option ℕ
    place = search_from (length buffer - 3) 0 buffer blank_line

    differs : (n : ℕ) → n < 3 → (length buffer == n) ≡ false
    differs n lt = ground (arith, h)

    number : Option ℕ → ℤ
    number o = elim o [ none ↦ negsuc 0 | some n ↦ pos (n + 4) ]

    http_place-number : (o : Option ℕ) → http_place o ≡ some (number o)
    http_place-number none = refl
    http_place-number (some n) = refl

    same : http_place place ≡ some (get_http_header buffer)
    same = elim (Bool-cases (ltb (length buffer) 4)) [
      | inl short ↦
          http_place-number place
          ∙ ap (λ (r : ℕ). some (number (search_from r 0 buffer blank_line))) {y = 0}
              (omega (tests, short))
          ∙ ap
              (λ b. some (
                number
                  (if b then none else search_from (length buffer - 4 + 1) 0 buffer blank_line)))
              (sym short)
      | inr long ↦
          http_place-number place
          ∙ ap (λ (r : ℕ). some (number (search_from r 0 buffer blank_line)))
              {y = length buffer - 4 + 1} (ground (arith, long, h))
          ∙ ap
              (λ b. some (
                number
                  (if b then none else search_from (length buffer - 4 + 1) 0 buffer blank_line)))
              (sym long)
    ]

drop-append_part : (n : ℕ) (xs ys : Bytes) → n ≤ length xs → drop n (xs ++ ys) ≡ drop n xs ++ ys
drop-append_part zero xs ys h = refl
drop-append_part (suc n) [] ys h = absurd (omega arith)
drop-append_part (suc n) (x ∷ xs) ys h = drop-append_part n xs ys (omega arith)

-- A part of a header has no empty line.
pub part-nowhere :
    (part rest head : Bytes)
    → 0 < length rest
    → part ++ rest ≡ head ++ blank_line
    → IsHeader head
    → get_http_header part ≡ negsuc 0
unfolding get_http_header
part-nowhere part rest head h e never =
    elim (websocket_strnpos-View part blank_line (omega arith)) [
      | nowhere f none_at ↦ ap number f
      | at_first n f (after, o) earlier ↦
          let inside : length part - n ≡ 4 + length after =
            omega (arith, length-drop n part, ap length o) in
          let longer =
            omega_le n (length part) (length rest) (length head) (length after) inside h (
              omega (arith, ap length e, length-append part rest, length-append head blank_line)) in
          absurd (never n longer (after ++ rest, moved n after o))
    ]
  where
    number : Option ℕ → ℤ
    number o = elim o [ none ↦ negsuc 0 | some n ↦ pos (n + 4) ]

    omega_le : (n p r d a : ℕ) → p - n ≡ 4 + a → 0 < r → p + r ≡ d + 4 → n < d
    omega_le n p r d a i h l = omega arith

    moved :
        (n : ℕ) (after : Bytes)
        → drop n part ≡ blank_line ++ after
        → drop n (head ++ blank_line) ≡ blank_line ++ (after ++ rest)
    moved n after o =
        ap (drop n) (sym e)
        ∙ drop-append_part n part rest (omega (arith, length-drop n part, ap length o))
        ∙ ap (λ t. t ++ rest) o

-- What the client receives, and then the rest of the script.
abbrev pub arriving : List Bytes → List Receiving → List Receiving
arriving [] script = script
arriving (piece ∷ pieces) script = arrives piece ∷ arriving pieces script

drop-all : (n : ℕ) (xs : Bytes) → length xs ≤ n → drop n xs ≡ []
drop-all zero [] h = refl
drop-all zero (x ∷ xs) h = absurd (omega arith)
drop-all (suc n) [] h = refl
drop-all (suc n) (x ∷ xs) h = drop-all n xs (omega arith)

recv-arrives :
    (read piece : Bytes) (script : List Receiving)
    → 0 < length piece
    → length (read ++ piece) ≤ cache_size
    → 3 ≤ length (read ++ piece)
    → recv_websocket_header_response read (arrives piece ∷ script)
      ≡ after_search
          (some (get_http_header (read ++ piece)))
          script
          (recv_websocket_header_response (read ++ piece) script)
unfolding recv_websocket_header_response
recv-arrives read [] script h fits long = absurd (omega arith)
recv-arrives read (b ∷ bs) script h fits long =
    ap (λ got. received_now got (drop cache_size piece)) (take-all piece cache_size short)
    ∙ ap (received_now piece) (drop-all cache_size piece short)
    ∙ ap
        (λ c.
          if c
          then beyond_buffer
          else after_search (client_http_header (read ++ piece)) script
              (recv_websocket_header_response (read ++ piece) script))
        room
    ∙ ap (λ o. after_search o script (recv_websocket_header_response (read ++ piece) script))
        (client_http_header-same (read ++ piece) long)
  where
    piece : Bytes
    piece = b ∷ bs

    short : length piece ≤ cache_size
    short = omega (arith, fits, length-append read piece)

    received_now : Bytes → Bytes → Shaken
    received_now got rest =
        if ltb cache_size (length (read ++ got))
        then beyond_buffer
        else after_search (client_http_header (read ++ got)) (rest_first rest script)
            (with_rest rest (recv_websocket_header_response (read ++ got) script))

    room : ltb cache_size (length (read ++ (b ∷ bs))) ≡ false
    room = ground (arith, fits)

-- The pieces of an answer end the wait with the last of them.
pub recv-pieces :
    (read piece : Bytes) (pieces : List Bytes) (script : List Receiving) (head : Bytes)
    → IsHeader head
    → read ++ joined (piece ∷ pieces) ≡ head ++ blank_line
    → length (head ++ blank_line) ≤ cache_size
    → AllNonempty (piece ∷ pieces)
    → 3 ≤ length (read ++ piece)
    → recv_websocket_header_response read (arriving (piece ∷ pieces) script) ≡ shaken script
recv-pieces read piece [] script head never e fits (some_bytes, none_more) long =
    let whole : read ++ piece ≡ head ++ blank_line =
      ap (λ t. read ++ t) (sym (append-nil piece)) ∙ e in
    recv-arrives read piece script some_bytes (omega (arith, ap length whole)) long
    ∙ ap (λ t. after_search (some t) script (recv_websocket_header_response (read ++ piece) script))
        (ap get_http_header whole ∙ get_http_header-end head never)
    ∙ ap (λ b. if b then shaken script else recv_websocket_header_response (read ++ piece) script)
        (positive (length (head ++ blank_line)) (omega (arith, length-append head blank_line)))
  where
    positive : (n : ℕ) → 0 < n → ltb 0 n ≡ true
    positive n h = ground arith
recv-pieces read piece (next ∷ pieces) script head never e fits (some_bytes, more) long =
    let split : (read ++ piece) ++ joined (next ∷ pieces) ≡ head ++ blank_line =
      append_assoc read piece (joined (next ∷ pieces)) ∙ e in
    let left : 0 < length (joined (next ∷ pieces)) =
      omega (arith, more.0, length-append next (joined pieces)) in
    let total = length-append (read ++ piece) (joined (next ∷ pieces)) in
    recv-arrives read piece (arriving (next ∷ pieces) script) some_bytes
      (omega (arith, fits, ap length split, total)) long
    ∙ ap
        (λ t.
          after_search (some t) (arriving (next ∷ pieces) script)
            (recv_websocket_header_response (read ++ piece) (arriving (next ∷ pieces) script)))
        (part-nowhere (read ++ piece) (joined (next ∷ pieces)) head left split never)
    ∙ recv-pieces (read ++ piece) next pieces script head never split fits more
        (omega (arith, long, length-append (read ++ piece) next))
