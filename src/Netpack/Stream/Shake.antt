-- ===== src/Netpack/Stream/Shake.antt =====
-- `filter_data` on the opening handshake.
use skynet_server.Common.{
  ℕ, ◌<◌, ◌≡◌, refl, ap, ◌∙◌, inl, inr, true, false, Option, none, some, [], ◌++◌, length, arith,
  length-append, ltb, ◌==◌, tests, Bool-cases,
}
use skynet_server.Common.Bytes.{Bytes, drop-append}
use skynet_server.Common.Int.{ℤ, pos}
use skynet_server.Netpack.Types.{Uncomplete, Queue, Junk, Answer, data_frame, Run, done}
use skynet_server.Netpack.Frame.{decode_wsmask_data}
use skynet_server.Netpack.Handshake.{get_http_header, blank_line}
use skynet_server.Netpack.Handshake.Search.{Occurs, at_first, nowhere, websocket_strnpos-View}
use skynet_server.Netpack.Hash.{find_uncomplete}
use skynet_server.Netpack.Push.{find_header}
use skynet_server.Netpack.Filter.{fill_uncomplete, filter_round, filter_data}

-- The header ends with its first empty line.
pub get_http_header-end :
    (head : Bytes)
    → ((j : ℕ) → j < length head → ¬ Occurs blank_line (head ++ blank_line) j)
    → get_http_header (head ++ blank_line) ≡ pos (length (head ++ blank_line))
unfolding get_http_header
get_http_header-end head never =
    elim (websocket_strnpos-View (head ++ blank_line) blank_line (omega arith)) [
      | at_first n e o earlier ↦
          rw (e, get_http_header)
            (ap pos (omega (arith, length-append head blank_line, same n o earlier)))
      | nowhere e none_at ↦ absurd (none_at (length head) here)
    ]
  where
    here : Occurs blank_line (head ++ blank_line) (length head)
    here = ([], drop-append head blank_line)

    same :
        (n : ℕ)
        → Occurs blank_line (head ++ blank_line) n
        → ((j : ℕ) → j < n → ¬ Occurs blank_line (head ++ blank_line) j)
        → n ≡ length head
    same n o earlier = elim (Bool-cases (ltb n (length head))) [
      | inl less ↦ absurd (never n (omega (tests, less)) o)
      | inr not_less ↦ elim (Bool-cases (ltb (length head) n)) [
        | inl more ↦ absurd (earlier (length head) (omega (tests, more)) here)
        | inr not_more ↦ ground arith
      ]
    ]

module _ (J : Junk) where
  -- For a connection with nothing in the table, if the piece is an HTTP header, that is it ends with an
  -- empty line and has none before: `filter_data` in a handshake answers with the header as it is.
  pub filter_data-handshake :
      (q : Queue) (fd : ℕ) (head : Bytes)
      → find_uncomplete (some q) fd ≡ none
      → ((j : ℕ) → j < length head → ¬ Occurs blank_line (head ++ blank_line) j)
      → filter_data J (some q) fd (head ++ blank_line) true
        ≡ done (some q, data_frame fd (head ++ blank_line) (length (head ++ blank_line)))
  unfolding filter_data find_header filter_round decode_wsmask_data
  filter_data-handshake q fd head free never =
      ap
        (λ (o : Option (Uncomplete × Queue)). elim o [
          | some (uc, r) ↦ fill_uncomplete J true r fd uc.read uc piece
          | none ↦ shaking (get_http_header piece)
        ])
        free
      ∙ ap shaking (get_http_header-end head never)
      ∙ rw (enough, exact) refl
    where
      piece : Bytes
      piece = head ++ blank_line

      shaking : ℤ → Run (Option Queue × Answer)
      shaking z =
          filter_round J true (some q) fd z (record { result = z; head_length = 0; mask = none })
            piece

      enough : ltb (length (head ++ blank_line)) (length (head ++ blank_line)) ≡ false
      enough = ground arith

      exact : (length (head ++ blank_line) == length (head ++ blank_line)) ≡ true
      exact = ground arith
