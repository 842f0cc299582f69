-- ===== src/Client/Send.antt =====
-- Sending in lua-clientwebsocket.c: `common_block_send`, `block_send` and `websocket_block_send`.
use skynet_server.Common.{ℕ, List, [], ◌∷◌, ◌++◌, length, take, drop, ltb, if◌then◌else◌}
use skynet_server.Common.Bytes.{Bytes}
use skynet_server.Client.Socket.{Sending, accepts, send_again, send_fails, cache_size}
use skynet_server.Netpack.Frame.{length_byte}

-- How sending ends: 0, -1 or an error, or not yet where the script ends.
pub data Outcome : Type 0 where
  all_sent : Outcome
  send_error : Outcome
  still_sending : Outcome

-- The outcome, and the bytes that the system took.
unfoldable pub common_block_send : List Sending → Bytes → Outcome × Bytes
common_block_send script [] = (all_sent, [])
common_block_send [] (b ∷ buffer) = (still_sending, [])
common_block_send (accepts r ∷ script) (b ∷ buffer) =
    let rest = common_block_send script (drop r (b ∷ buffer)) in
    (rest.0, take r (b ∷ buffer) ++ rest.1)
common_block_send (send_again ∷ script) (b ∷ buffer) = common_block_send script (b ∷ buffer)
common_block_send (send_fails ∷ script) (b ∷ buffer) = (send_error, [])

-- The same loop, which `lsend` no longer calls; in place of -1 it raises an error.
unfoldable pub block_send : List Sending → Bytes → Outcome × Bytes
block_send script [] = (all_sent, [])
block_send [] (b ∷ buffer) = (still_sending, [])
block_send (accepts r ∷ script) (b ∷ buffer) =
    let rest = block_send script (drop r (b ∷ buffer)) in (rest.0, take r (b ∷ buffer) ++ rest.1)
block_send (send_again ∷ script) (b ∷ buffer) = block_send script (b ∷ buffer)
block_send (send_fails ∷ script) (b ∷ buffer) = (send_error, [])

-- FIN, opcode 4, no mask, and the length.
unfoldable pub client_header : ℕ → Bytes
client_header sz =
    if ltb sz 126
    then 132 ∷ length_byte sz 0 ∷ []
    else if ltb sz 65536
    then 132 ∷ 126 ∷ length_byte sz 1 ∷ length_byte sz 0 ∷ []
    else 132
      ∷ 127
      ∷ length_byte sz 7
      ∷ length_byte sz 6
      ∷ length_byte sz 5
      ∷ length_byte sz 4
      ∷ length_byte sz 3
      ∷ length_byte sz 2
      ∷ length_byte sz 1
      ∷ length_byte sz 0
      ∷ []

-- A message that does not fit `cache_buffer` with its header is written past it.
pub data Sent : Type 0 where
  sent : Outcome → Bytes → Sent
  overflow : Sent

unfoldable pub websocket_block_send : List Sending → Bytes → Sent
unfolding common_block_send client_header
websocket_block_send script msg =
    let frame = client_header (length msg) ++ msg in
    let r = common_block_send script frame in
    if ltb cache_size (length frame) then overflow else sent r.0 r.1
