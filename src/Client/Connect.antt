-- ===== src/Client/Connect.antt =====
-- `lconnect` in lua-clientwebsocket.c: the connection, the request of the opening handshake, and the
-- wait for its answer.
use skynet_server.Common.{Bool, List, if◌then◌else◌}
use skynet_server.Common.Bytes.{Bytes, codes}
use skynet_server.Client.Socket.{Sending, Receiving}
use skynet_server.Client.Send.{Outcome, all_sent, send_error, still_sending, common_block_send}
use skynet_server.Client.Receive.{
  Shaken, shaken, refused, beyond_buffer, still_waiting, recv_websocket_header_response,
}

-- WEBSOCKET_CLIENT_HEADER(addr, port), which turns the names of its arguments into text.
abbrev pub request : Bytes
request =
    codes
      "GET / HTTP/1.1\r\nOrigin:\r\nHost: addr:port\r\nSec-WebSocket-Key: Vld9DdQJkJTVKdwRExlMA==\r\nUser-Agent: LuaWebSocketClient/1.0\r\nUpgrade: Websocket\r\nConnection: Upgrade\r\nSec-WebSocket-Protocol: wamp\r\nSec-WebSocket-Version: 13\r\n\r\n"

-- How `lconnect` ends: with the socket and what is still to arrive on it, with one of its three errors,
-- past the buffer of the answer, or waiting.
pub data Connected : Type 0 where
  connected : List Receiving → Connected
  connect_failed : Connected
  send_failed : Connected
  handshake_failed : Connected
  answer_overflow : Connected
  connecting : Connected

abbrev pub with_answer : Shaken → Connected
with_answer (shaken script) = connected script
with_answer refused = handshake_failed
with_answer beyond_buffer = answer_overflow
with_answer still_waiting = connecting

abbrev pub with_request : Outcome → Shaken → Connected
with_request all_sent answer = with_answer answer
with_request send_error answer = send_failed
with_request still_sending answer = connecting

-- The result, and the bytes that the system took; `reachable` tells whether `connect` succeeds.
unfoldable pub lconnect : (reachable : Bool) → List Sending → List Receiving → Connected × Bytes
unfolding common_block_send recv_websocket_header_response
lconnect reachable sendings answers =
    let s = common_block_send sendings request in
    if reachable
    then (with_request s.0 (recv_websocket_header_response (codes "") answers), s.1)
    else (connect_failed, codes "")
