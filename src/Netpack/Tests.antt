-- ===== src/Netpack/Tests.antt =====
-- The web socket splitter at concrete inputs: runs of it, and the theorems there.
use skynet_server.Common.{◌-◌, ◌^◌}
use skynet_server.Common.{
  ℕ, ◌≡◌, ◌≢◌, refl, inr, true, false, none, some, [], ◌∷◌, ◌++◌, arith, drop,
}
use skynet_server.Common.Bytes.{Bytes, codes}
use skynet_server.Common.Int.{pos, negsuc}
use skynet_server.Netpack.Types.{Uncomplete, Queue, data_frame, closed, done, fault}
use skynet_server.Netpack.Frame.{read_size, lpack}
use skynet_server.Netpack.Frame.Wire.{lpack-read_size, wire_header}
use skynet_server.Netpack.Handshake.{blank_line}
use skynet_server.Netpack.Handshake.Search.{View, websocket_strnpos-View}
use skynet_server.Netpack.Queue.Clear.{Cleared, lclear-Cleared}
use skynet_server.Netpack.Hash.{hash_fd, find_in_chain, find_uncomplete, put_uncomplete}
use skynet_server.Netpack.Hash.Lookup.{IsFiled, waiting, find_uncomplete-View, put_uncomplete_lem}
use skynet_server.Netpack.Queue.{no_chains, push_data, lpop}
use skynet_server.Netpack.Queue.Refine.{IsValid, contents, push_data_refines, lpop-View}
use skynet_server.Netpack.Push.{push_more}
use skynet_server.Netpack.Filter.{filter_data}
use skynet_server.Netpack.Stream.{in_header, header_node, stream, Partly}
use skynet_server.Netpack.Stream.Save.{At, partly, Free, Consumed}
use skynet_server.Netpack.Stream.Push.{push_more-Consumed}
use skynet_server.Netpack.Stream.Answer.{Filters}
use skynet_server.Netpack.Stream.Filter.{IsSound, filter_data_lem}
use skynet_server.Netpack.Stream.{delivered}
use skynet_server.Netpack.Stream.Save.{between}
use skynet_server.Netpack.Stream.Feed.{feed, feed-frames}
use skynet_server.Common.{map, List}
use skynet_server.Netpack.Stream.Huge.{filter_data-huge}
use skynet_server.Netpack.Samples.{
  cell, memory, quiet, quiet-IsSound, masked, plain, masked-IsSent, plain-IsSent,
}

-- A ring of two cells with one frame in it, and no chains: one more frame makes it full.
abbrev one_waits : Queue
one_waits = record {
  cap = 2;
  head = 1;
  tail = 0;
  hash = no_chains;
  queue = cell ∷ (record { id = 3; size = 1; buffer = 65 ∷ [] }) ∷ [];
}

one_waits-IsValid : IsValid one_waits
one_waits-IsValid = record { sized = refl; head_in = omega arith; tail_in = omega arith }

one_waits-IsFiled : IsFiled one_waits
one_waits-IsFiled h = tt

push_data_refines_example :
    IsValid (push_data cell (some one_waits) 9 (7 ∷ []))
    × (contents cell (push_data cell (some one_waits) 9 (7 ∷ []))
        ≡ record { id = 3; size = 1; buffer = 65 ∷ [] }
          ∷ record { id = 9; size = 1; buffer = 7 ∷ [] }
          ∷ [])
    × ((push_data cell (some one_waits) 9 (7 ∷ [])).hash ≡ no_chains)
push_data_refines_example = push_data_refines cell one_waits 9 (7 ∷ []) one_waits-IsValid

lpop-View_example : skynet_server.Netpack.Queue.Refine.View cell one_waits
lpop-View_example = lpop-View cell one_waits one_waits-IsValid

lpack-read_size_example :
    ((read_size (lpack (codes "hi") ++ (1 ∷ []))).result ≡ pos 2)
    × ((read_size (lpack (codes "hi") ++ (1 ∷ []))).mask ≡ none)
    × (drop
          (read_size (lpack (codes "hi") ++ (1 ∷ []))).head_length
          (lpack (codes "hi") ++ (1 ∷ []))
        ≡ 104 ∷ 105 ∷ 1 ∷ [])
lpack-read_size_example = lpack-read_size (codes "hi") (1 ∷ []) (omega arith)

websocket_strnpos-View_example : View (codes "GET\r\n\r\nx") blank_line
websocket_strnpos-View_example =
    websocket_strnpos-View (codes "GET\r\n\r\nx") blank_line (omega arith)

abbrev first_node : Uncomplete
first_node = header_node 7 (129 ∷ [])

-- Nothing waits for connection 7, so its node goes in the table, and nothing changes for the others.
put_uncomplete_lem_example :
    IsFiled (put_uncomplete 7 first_node one_waits)
    × (waiting (put_uncomplete 7 first_node one_waits) 7 ≡ some first_node)
    × ((other : ℕ)
        → other ≢ 7
        → waiting (put_uncomplete 7 first_node one_waits) other ≡ waiting one_waits other)
    × (put_uncomplete 7 first_node one_waits
        ≡ record one_waits { hash = (put_uncomplete 7 first_node one_waits).hash })
put_uncomplete_lem_example = put_uncomplete_lem one_waits 7 first_node one_waits-IsFiled refl refl

-- The first byte of a header has arrived.
abbrev first_byte : Queue
first_byte = put_uncomplete 7 first_node one_waits

first_byte-IsSound : IsSound memory first_byte
unfolding put_uncomplete
first_byte-IsSound = record {
  valid = record { sized = refl; head_in = omega arith; tail_in = omega arith };
  filed = (put_uncomplete_lem one_waits 7 first_node one_waits-IsFiled refl refl).0;
}

first_byte-At : At 7 (129 ∷ []) (waiting first_byte 7)
first_byte-At =
    partly (in_header masked 130 (1 ∷ 2 ∷ 3 ∷ 4 ∷ []) masked-IsSent refl) first_node refl
      (put_uncomplete_lem one_waits 7 first_node one_waits-IsFiled refl refl).1

plain_begins : Partly (130 ∷ [])
plain_begins = in_header plain 1 [] plain-IsSent refl

find_uncomplete-View_example : skynet_server.Netpack.Hash.Lookup.View first_byte 7
find_uncomplete-View_example = find_uncomplete-View first_byte 7 first_byte-IsSound.filed

lclear-Cleared_example : Cleared cell first_byte
lclear-Cleared_example = lclear-Cleared cell first_byte first_byte-IsSound.valid

-- The rest of the masked frame, and the first byte of the next.
abbrev chunk : Bytes
chunk = 130 ∷ 1 ∷ 2 ∷ 3 ∷ 4 ∷ 73 ∷ 107 ∷ 130 ∷ []

filter_data_lem_example :
    Filters memory 7 first_byte
      (masked ∷ [])
      (130 ∷ [])
      (filter_data memory (some first_byte) 7 chunk false)
filter_data_lem_example =
    filter_data_lem memory 7 first_byte (129 ∷ []) chunk (masked ∷ []) (130 ∷ []) first_byte-IsSound
      first_byte-At (masked-IsSent, tt) (inr plain_begins) (omega arith) refl

one_waits-Free : Free memory 7 one_waits
one_waits-Free = record { valid = one_waits-IsValid; filed = one_waits-IsFiled; free = refl }

push_more-Consumed_example :
    (r : Queue) × (push_more memory false
        (some one_waits)
        7
        (stream (masked ∷ plain ∷ []) ++ (130 ∷ []))
      ≡ done r)
    × Consumed memory 7 one_waits (masked ∷ plain ∷ []) (130 ∷ []) r
push_more-Consumed_example =
    push_more-Consumed memory 7 one_waits (masked ∷ plain ∷ []) (130 ∷ [])
      (masked-IsSent, (plain-IsSent, tt)) (inr plain_begins) one_waits-Free (omega arith)

find-one_waits : find_uncomplete (some one_waits) 7 ≡ none
unfolding find_uncomplete
find-one_waits = refl

filter_data-huge_example :
    ((read_size (wire_header 1 (some (1 ∷ 2 ∷ 3 ∷ 4 ∷ [])) 3000000000 ++ (5 ∷ []))).result
      ≡ negsuc (2 ^ 32 - 1 - 3000000000))
    × (filter_data memory
          (some one_waits)
          7
          (wire_header 1 (some (1 ∷ 2 ∷ 3 ∷ 4 ∷ [])) 3000000000 ++ (5 ∷ []))
          false
        ≡ fault)
filter_data-huge_example =
    filter_data-huge memory one_waits 7 1 3000000000 (some (1 ∷ 2 ∷ 3 ∷ 4 ∷ [])) (5 ∷ [])
      find-one_waits (omega arith) (omega arith) (λ e. absurd (omega (arith, e))) refl (omega arith)
      (omega arith)

-- The whole masked frame in one piece is the answer.
run-masked :
    filter_data memory (some one_waits) 7 (129 ∷ 130 ∷ 1 ∷ 2 ∷ 3 ∷ 4 ∷ 73 ∷ 107 ∷ []) false
    ≡ done (some one_waits, data_frame 7 (codes "Hi") 2)
unfolding filter_data
run-masked = refl

-- A close frame.
run-close :
    filter_data memory (some one_waits) 7 (136 ∷ 0 ∷ []) false ≡ done (some one_waits, closed 7)
unfolding filter_data
run-close = refl

-- An opening handshake.
run-handshake :
    filter_data memory (some one_waits) 7 (codes "GET\r\n\r\n") true
    ≡ done (some one_waits, data_frame 7 (codes "GET\r\n\r\n") 7)
unfolding filter_data
run-handshake = refl

-- The two frames in five pieces.
abbrev five_pieces : List Bytes
five_pieces =
    (129 ∷ []) ∷ (130 ∷ 1 ∷ 2 ∷ []) ∷ (3 ∷ 4 ∷ 73 ∷ []) ∷ (107 ∷ 130 ∷ []) ∷ (1 ∷ 65 ∷ []) ∷ []

feed-frames_example :
    (r : Queue) × (feed memory 7 five_pieces quiet
      ≡ done (r, map (delivered 7) (masked ∷ plain ∷ [])))
    × At 7 [] (waiting r 7)
feed-frames_example =
    feed-frames memory 7 five_pieces quiet [] (masked ∷ plain ∷ []) quiet-IsSound refl
      (between refl refl) (masked-IsSent, (plain-IsSent, tt))
      (omega arith, (omega arith, (omega arith, (omega arith, (omega arith, tt))))) refl
