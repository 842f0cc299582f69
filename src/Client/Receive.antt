-- ===== src/Client/Receive.antt =====
-- Receiving in lua-clientwebsocket.c: `block_read`, `lrecv` and the answer to the handshake.
pub mod Arrives
pub mod Frame
pub mod Fuel
use skynet_server.Common.{
  ℕ, zero, suc, ◌+◌, ◌-◌, ◌*◌, ◌%◌, Bool, true, false, not, ◌||◌, Option, none, some, List, [], ◌∷◌,
  ◌++◌, length, take, drop, replicate, ltb, leb, ◌==◌, if◌then◌else◌, get_or,
}
use skynet_server.Common.Bytes.{Bytes, memcpy}
use skynet_server.Common.Int.{ℤ, pos, negsuc}
use skynet_server.Client.Socket.{
  Receiving, arrives, recv_closed, recv_again, recv_fails, Step, select_fails, select_times_out,
  readable, left_over, cache_size,
}
use skynet_server.Netpack.Frame.{bit, to_int, load, ntohs, ntoh64, unmask}
use skynet_server.Netpack.Handshake.{search_from, blank_line}

-- How `block_read` ends, with what it leaves in the buffer and of the script: 0, -1, -2, -3, a write
-- past the buffer, or waiting where the script ends.
pub data Reading : Type 0 where
  complete : Bytes → List Step → Reading
  peer_closed : Reading
  timed_out : Reading
  broken : Reading
  past_buffer : Reading
  waiting : Reading

-- `sz` bytes are still to come. `buffer` does not move: each piece is stored at its start. A piece that
-- is longer than what is still to come is taken in part, and then the loop ends.
unfoldable pub block_read : List Step → (sz : ℕ) → Bytes → Reading
block_read script zero buffer = complete buffer script
block_read [] (suc sz) buffer = waiting
block_read (select_fails ∷ script) (suc sz) buffer = broken
block_read (select_times_out ∷ script) (suc sz) buffer = timed_out
block_read (readable recv_closed ∷ script) (suc sz) buffer = peer_closed
block_read (readable recv_again ∷ script) (suc sz) buffer = block_read script (suc sz) buffer
block_read (readable recv_fails ∷ script) (suc sz) buffer = broken
block_read (readable (arrives []) ∷ script) (suc sz) buffer = peer_closed
block_read (readable (arrives (b ∷ bs)) ∷ script) (suc sz) buffer =
    let got = take (suc sz) (b ∷ bs) in
    let stored = memcpy buffer 0 got in
    let rest = block_read script (suc sz - length got) stored in
    if ltb (length buffer) (length got)
    then past_buffer
    else if leb (suc sz) (length (b ∷ bs))
    then complete stored (left_over (drop (suc sz) (b ∷ bs)) script)
    else rest

-- The same loop with a negative `sz`, which never gets to 0: each `recv` may take all that has arrived,
-- until it is more than the buffer has room for or the loop ends for another reason.
unfoldable pub block_read_negative : List Step → Bytes → Reading
block_read_negative [] buffer = waiting
block_read_negative (select_fails ∷ script) buffer = broken
block_read_negative (select_times_out ∷ script) buffer = timed_out
block_read_negative (readable recv_closed ∷ script) buffer = peer_closed
block_read_negative (readable recv_again ∷ script) buffer = block_read_negative script buffer
block_read_negative (readable recv_fails ∷ script) buffer = broken
block_read_negative (readable (arrives []) ∷ script) buffer = peer_closed
block_read_negative (readable (arrives (b ∷ bs)) ∷ script) buffer =
    let rest = block_read_negative script (memcpy buffer 0 (b ∷ bs)) in
    if ltb (length buffer) (length (b ∷ bs)) then past_buffer else rest

-- What `lrecv` returns: a message, "" and 1, "" alone, or an error; or it reads or writes past
-- `buffer`, or waits.
pub data Received : Type 0 where
  message : Bytes → List Step → Received
  no_message : Received
  stream_end : Received
  socket_error : Received
  out_of_bounds : Received
  waits : Received
  out_of_fuel : Received

-- The tests of `res`.
abbrev pub and_then : Reading → (Bytes → List Step → Received) → Received
and_then (complete buffer script) next = next buffer script
and_then peer_closed next = stream_end
and_then timed_out next = no_message
and_then broken next = socket_error
and_then past_buffer next = out_of_bounds
and_then waiting next = waits

-- The payload. A length that is more than `buffer` holds goes past it when all of it has come; one that
-- is negative is never complete.
unfoldable pub read_data : Option Bytes → ℤ → Bytes → List Step → Received
unfolding block_read block_read_negative unmask
read_data masks (negsuc n) buffer script =
    and_then (block_read_negative script buffer) (λ got left. out_of_bounds)
read_data masks (pos n) buffer script = and_then (block_read script n buffer) (λ got left.
    if ltb cache_size n then out_of_bounds else elim masks [
      | none ↦ message (take n got) left
      | some key ↦ message (unmask key 0 (take n got)) left
    ])

-- The bytes that a script holds.
abbrev pub script_bytes : List Step → ℕ
script_bytes [] = 0
script_bytes (readable (arrives bs) ∷ script) = length bs + script_bytes script
script_bytes (step ∷ script) = script_bytes script

module _ (junk : ℕ) where
  -- The mask, if there is one.
  unfoldable pub read_masks : (is_mask : Bool) → ℤ → Bytes → List Step → Received
  unfolding block_read read_data
  read_masks false data_len buffer script = read_data none data_len buffer script
  read_masks true data_len buffer script =
      and_then (block_read script 4 (replicate 4 junk))
        (λ masks left. read_data (some masks) data_len buffer left)

  -- The length.
  unfoldable pub read_data_len : (is_mask : Bool) (length_bits : ℕ) → Bytes → List Step → Received
  unfolding block_read read_masks ntoh64
  read_data_len is_mask length_bits buffer script =
      if ltb length_bits 126
      then read_masks is_mask (pos length_bits) buffer script
      else if length_bits == 126
      then and_then (block_read script 2 buffer)
          (λ got left. read_masks is_mask (pos (ntohs (load (take 2 got)))) got left)
      else and_then (block_read script 8 buffer)
          (λ got left. read_masks is_mask (to_int (ntoh64 (load (take 8 got)))) got left)

  -- The first two bytes; with a reserved bit set they are dropped.
  unfoldable pub recv_loop : ℕ → Bytes → List Step → Received
  unfolding block_read read_data_len
  recv_loop zero buffer script = out_of_fuel
  recv_loop (suc f) buffer script = and_then (block_read script 2 buffer) (λ got left.
      let again = recv_loop f got left in
      let b0 = get_or got 0 junk in
      let b1 = get_or got 1 junk in
      if not (bit b0 6 == 0) || (not (bit b0 5 == 0) || not (bit b0 4 == 0))
      then again
      else read_data_len (bit b1 7 == 1) (b1 % 128) got left)

  -- Each round but the last takes two bytes.
  unfoldable pub lrecv : List Step → Received
  unfolding recv_loop
  lrecv script = recv_loop (script_bytes script + 1) (replicate cache_size junk) script

-- From the place of the empty line on.
abbrev pub http_place : Option ℕ → Option ℤ
http_place none = some (negsuc 0)
http_place (some n) = some (pos (n + 4))

-- `websocket_strnpos` here has no test that the haystack is long enough: with one or two bytes the
-- bound of its loop wraps and it reads past them.
unfoldable pub client_http_header : Bytes → Option ℤ
unfolding search_from
client_http_header buffer =
    if length buffer == 1
    then none
    else if length buffer == 2
    then none
    else http_place (search_from (length buffer - 3) 0 buffer blank_line)

-- How waiting for the answer to the handshake ends.
pub data Shaken : Type 0 where
  shaken : List Receiving → Shaken
  refused : Shaken
  beyond_buffer : Shaken
  still_waiting : Shaken

-- What follows the search, with the rest of the loop.
abbrev pub after_search : Option ℤ → List Receiving → Shaken → Shaken
after_search none script later = beyond_buffer
after_search (some (negsuc n)) script later = later
after_search (some (pos n)) script later = if ltb 0 n then shaken script else later

-- The rest of a piece that is longer than a call takes: it goes behind the full buffer.
abbrev pub with_rest : Bytes → Shaken → Shaken
with_rest [] later = later
with_rest (b ∷ bs) later = beyond_buffer

abbrev pub rest_first : Bytes → List Receiving → List Receiving
rest_first [] script = script
rest_first (b ∷ bs) script = arrives (b ∷ bs) ∷ script

-- `recv_websocket_header_response`; `read` is what has been received. The socket does not block, and a
-- call takes what has arrived, CACHE_SIZE bytes at most, wherever in the buffer it stores them. Once the header is there the loop has ended, so that EAGAIN only waits.
unfoldable pub recv_websocket_header_response : Bytes → List Receiving → Shaken
unfolding client_http_header
recv_websocket_header_response read [] = still_waiting
recv_websocket_header_response read (recv_closed ∷ script) = refused
recv_websocket_header_response read (recv_again ∷ script) =
    recv_websocket_header_response read script
recv_websocket_header_response read (recv_fails ∷ script) = refused
recv_websocket_header_response read (arrives [] ∷ script) = refused
recv_websocket_header_response read (arrives (b ∷ bs) ∷ script) =
    let all = read ++ take cache_size (b ∷ bs) in
    let rest = drop cache_size (b ∷ bs) in
    let later = recv_websocket_header_response all script in
    if ltb cache_size (length all)
    then beyond_buffer
    else after_search (client_http_header all) (rest_first rest script) (with_rest rest later)
