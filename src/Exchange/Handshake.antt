-- ===== src/Exchange/Handshake.antt =====
-- The opening handshake between the client and the splitter of the server.
use skynet_server.Common.{
  ℕ, ◌≤◌, ◌≡◌, refl, sym, ap, ◌∙◌, true, none, some, List, [], ◌∷◌, ◌++◌, append-nil, arith, length,
  length-append, take,
}
use skynet_server.Common.Bytes.{Bytes}
use skynet_server.Netpack.Types.{Queue, Junk, data_frame, done}
use skynet_server.Netpack.Handshake.{blank_line, search_from, starts_with, websocket_strnpos}
use skynet_server.Netpack.Handshake.Search.{at_first, nowhere, websocket_strnpos-View}
use skynet_server.Netpack.Hash.{find_uncomplete}
use skynet_server.Netpack.Filter.{filter_data}
use skynet_server.Netpack.Stream.Shake.{filter_data-handshake}
use skynet_server.Netpack.Stream.Feed.{AllNonempty, joined}
use skynet_server.Client.Socket.{Sending, Receiving, cache_size}
use skynet_server.Client.Send.{all_sent, common_block_send}
use skynet_server.Client.Wire.{common_block_send_lem}
use skynet_server.Client.Receive.{Shaken, recv_websocket_header_response}
use skynet_server.Client.Connect.{request, connected, with_answer, with_request, lconnect}
use skynet_server.Exchange.Answer.{IsHeader, arriving, recv-pieces}

-- What the search finds is the end of a header.
pub strnpos-IsHeader :
    (head : Bytes)
    → websocket_strnpos (head ++ blank_line) blank_line ≡ some (length head)
    → IsHeader head
strnpos-IsHeader head place =
    elim (websocket_strnpos-View (head ++ blank_line) blank_line
      (omega (arith, length-append head blank_line))) [
        | at_first n e o earlier ↦
            let here : n ≡ length head = cc (e, place) in
            λ j lt. earlier j (omega (arith, here, lt))
        | nowhere e none_at ↦ λ j lt. none_at j
      ]

abbrev request_head : Bytes
request_head = take 218 request

request_place : websocket_strnpos request blank_line ≡ some 218
unfolding websocket_strnpos search_from starts_with
request_place = refl

request_head-IsHeader : IsHeader request_head
request_head-IsHeader = strnpos-IsHeader request_head request_place

-- Where `connect` succeeds and the request is sent whole, and the answer is any HTTP header (it ends with
-- an empty line and has none before) of at most 4096 bytes that arrives in pieces, none empty and the
-- first of at least three bytes: `lconnect` ends with the connection and takes exactly the answer off
-- it. The request itself is an HTTP header for the server: arriving in one piece on a connection of
-- which nothing is kept, it is what `filter_data` in a handshake answers with.
pub lconnect-handshake :
    (sendings : List Sending) (piece : Bytes) (pieces : List Bytes) (script : List Receiving)
    (head : Bytes) (J : Junk) (q : Queue) (fd : ℕ)
    → (common_block_send sendings request).0 ≡ all_sent
    → IsHeader head
    → joined (piece ∷ pieces) ≡ head ++ blank_line
    → length (head ++ blank_line) ≤ cache_size
    → AllNonempty (piece ∷ pieces)
    → 3 ≤ length piece
    → find_uncomplete (some q) fd ≡ none
    → (lconnect true sendings (arriving (piece ∷ pieces) script) ≡ (connected script, request))
      × (filter_data J (some q) fd request true
          ≡ done (some q, data_frame fd request (length request)))
unfolding lconnect
lconnect-handshake sendings piece pieces script head J q fd sends never e fits nonempty long free =
    (
      ap (λ o. (with_request o answered, (common_block_send sendings request).1)) sends
          ∙ ap (λ a. (with_answer a, (common_block_send sendings request).1))
              (recv-pieces [] piece pieces script head never e fits nonempty long)
          ∙ ap (λ t. (connected script, t)) taken,
      filter_data-handshake J q fd request_head free request_head-IsHeader,
    )
  where
    answered : Shaken
    answered = recv_websocket_header_response [] (arriving (piece ∷ pieces) script)

    taken : (common_block_send sendings request).1 ≡ request
    taken =
        let r = common_block_send_lem sendings request in
        sym (append-nil (common_block_send sendings request).1)
        ∙ ap (λ t. (common_block_send sendings request).1 ++ t) (sym (r.2 sends))
        ∙ r.1
