-- ===== src/Exchange/Tests.antt =====
-- Both ends at concrete inputs.
use skynet_server.Common.{
  ◌≡◌, refl, length, take, drop, true, none, some, List, [], ◌∷◌, ◌++◌, map, arith,
}
use skynet_server.Common.Bytes.{Bytes, codes}
use skynet_server.Netpack.Types.{Netpack, Queue, Junk, done}
use skynet_server.Netpack.Queue.{no_chains}
use skynet_server.Netpack.Hash.Lookup.{waiting}
use skynet_server.Netpack.Stream.Save.{At}
use skynet_server.Netpack.Stream.Filter.{IsSound}
use skynet_server.Netpack.Stream.Feed.{joined, feed}
use skynet_server.Client.Socket.{Sending, accepts, send_again, recv_closed, readable, left_over}
use skynet_server.Client.Send.{common_block_send, client_header, websocket_block_send}
use skynet_server.Netpack.Types.{data_frame}
use skynet_server.Netpack.Handshake.{blank_line, search_from, starts_with, websocket_strnpos}
use skynet_server.Netpack.Hash.{find_uncomplete, find_in_chain}
use skynet_server.Netpack.Filter.{filter_data}
use skynet_server.Client.Socket.{arrives}
use skynet_server.Client.Send.{all_sent}
use skynet_server.Client.Connect.{request, connected, lconnect}
use skynet_server.Exchange.Answer.{arriving}
use skynet_server.Exchange.Request.{Shakes, filter_data-Shakes}
use skynet_server.Exchange.Handshake.{strnpos-IsHeader, lconnect-handshake}
use skynet_server.Exchange.Upstream.{outgoing, arrived, websocket_block_send-feed}
use skynet_server.Exchange.Downstream.{packed, receive, lpack-receive}

abbrev cell : Netpack
cell = record { id = 0; size = 0; buffer = [] }

abbrev memory : Junk
memory = record { cell = cell; byte = 0 }

abbrev quiet : Queue
quiet = record { cap = 2; head = 0; tail = 0; hash = no_chains; queue = cell ∷ cell ∷ [] }

quiet-IsSound : IsSound memory quiet
quiet-IsSound = record {
  valid = record { sized = refl; head_in = omega arith; tail_in = omega arith };
  filed = λ h. tt;
}

-- The system takes the first frame in two parts.
abbrev two_messages : List (List Sending × Bytes)
two_messages =
    (accepts 1 ∷ send_again ∷ accepts 9 ∷ [], codes "hi") ∷ (accepts 9 ∷ [], codes "you") ∷ []

abbrev three_pieces : List Bytes
three_pieces = (132 ∷ []) ∷ (2 ∷ 104 ∷ 105 ∷ 132 ∷ []) ∷ (3 ∷ codes "you") ∷ []

sends : outgoing two_messages ≡ some (joined three_pieces)
unfolding websocket_block_send common_block_send client_header
sends = refl

websocket_block_send-feed_example :
    (r : Queue) × (feed memory 7 three_pieces quiet ≡ done (r, map (arrived 7) two_messages))
    × At 7 [] (waiting r 7)
websocket_block_send-feed_example =
    websocket_block_send-feed memory 7 quiet two_messages three_pieces quiet-IsSound refl refl
      (omega arith, (omega arith, tt)) sends (omega arith, (omega arith, (omega arith, tt)))

lpack-receive_example :
    receive 170 2
      (left_over (packed (codes "hi" ∷ [] ∷ []) ++ (130 ∷ [])) (readable recv_closed ∷ []))
    ≡ (codes "hi" ∷ [] ∷ [], left_over (130 ∷ []) (readable recv_closed ∷ []))
lpack-receive_example =
    lpack-receive 170 (codes "hi" ∷ [] ∷ []) (130 ∷ []) (readable recv_closed ∷ [])
      (omega arith, (omega arith, tt))

-- An answer in two pieces, and a byte behind it.
abbrev answer_head : Bytes
answer_head = codes "HTTP/1.1 101"

answer_place : websocket_strnpos (answer_head ++ blank_line) blank_line ≡ some (length answer_head)
unfolding websocket_strnpos search_from starts_with
answer_place = refl

request_sent : (common_block_send (accepts 100 ∷ accepts 200 ∷ []) request).0 ≡ all_sent
unfolding common_block_send
request_sent = refl

nothing_kept : find_uncomplete (some quiet) 7 ≡ none
unfolding find_uncomplete find_in_chain
nothing_kept = refl

lconnect-handshake_example :
    (lconnect true
        (accepts 100 ∷ accepts 200 ∷ [])
        (arriving (codes "HTTP" ∷ codes "/1.1 101\r\n\r\n" ∷ []) (arrives (130 ∷ []) ∷ []))
      ≡ (connected (arrives (130 ∷ []) ∷ []), request))
    × (filter_data memory (some quiet) 7 request true
        ≡ done (some quiet, data_frame 7 request (length request)))
lconnect-handshake_example =
    lconnect-handshake (accepts 100 ∷ accepts 200 ∷ []) (codes "HTTP")
      (codes "/1.1 101\r\n\r\n" ∷ []) (arrives (130 ∷ []) ∷ []) answer_head memory quiet 7
      request_sent (strnpos-IsHeader answer_head answer_place) refl (omega arith)
      (omega arith, (omega arith, tt)) (omega arith) nothing_kept

-- The request of the client, in three pieces.
request_pieces :
    joined (take 1 request ∷ take 99 (drop 1 request) ∷ drop 100 request ∷ [])
    ≡ take 218 request ++ blank_line
request_pieces = refl

request_place : websocket_strnpos (take 218 request ++ blank_line) blank_line ≡ some 218
unfolding websocket_strnpos search_from starts_with
request_place = refl

filter_data-Shakes_example :
    Shakes memory 7
      (take 218 request)
      (strnpos-IsHeader (take 218 request) request_place)
      (omega arith)
      quiet
      (take 1 request ∷ take 99 (drop 1 request) ∷ drop 100 request ∷ [])
filter_data-Shakes_example =
    filter_data-Shakes memory 7 (take 218 request)
      (strnpos-IsHeader (take 218 request) request_place) (omega arith) quiet (take 1 request)
      (take 99 (drop 1 request) ∷ drop 100 request ∷ []) (λ h. tt) refl request_pieces
      (omega arith, (omega arith, (omega arith, tt)))
