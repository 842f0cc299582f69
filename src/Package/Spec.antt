-- ===== src/Package/Spec.antt =====
-- The package service of service_package.c with no buffers, rings or loops: a queue of requests, a
-- queue of packages, the place in the byte stream, and the calls that each message leads to.
use skynet_server.Common.{
  ℕ, ◌+◌, Bool, true, false, not, ◌&&◌, List, [], ◌∷◌, ◌++◌, length, ltb, ◌==◌, if◌then◌else◌,
}
use skynet_server.Common.Bytes.{Bytes, codes}
use skynet_server.Common.Int.{ℤ, pos, negsuc, ◌==ℤ◌, is_positive}
use skynet_server.Package.Types.{
  Request, Ptype, SocketType, SocketMessage, Message, Effect, send, log, socket_shutdown,
  socket_send, timeout, exit, free, invalid_command, invalid_fd, overload, timed_out, too_long,
}
use skynet_server.Package.Decoder.{Decoder, idle, half, body, decode}
use skynet_server.Package.Answers.{refuse}
use skynet_server.Package.Handlers.{info_text, timer_interval, frame_header}

pub record Service : Type 0 where
  pub manager : ℕ
  pub fd : ℤ
  pub heartbeat : ℤ
  pub recv : ℕ
  pub init : Bool
  pub closed : Bool
  pub stream : Decoder
  pub requests : List Request
  pub ready : List Bytes

abbrev pub hand : Request → Bytes → Effect
hand req msg = send req.source Ptype.response true req.session msg

-- The oldest request gets the oldest package, until one of the two runs out: the calls, and what
-- is left of both.
unfoldable pub matching : List Request → List Bytes → List Effect × List Request × List Bytes
matching [] ms = ([], [], ms)
matching (q ∷ qs) [] = ([], q ∷ qs, [])
matching (q ∷ qs) (m ∷ ms) = (hand q m ∷ (matching qs ms).0, (matching qs ms).1, (matching qs ms).2)

unfoldable pub refusals : List Request → List Effect
refusals [] = []
refusals (q ∷ qs) = refuse q ∷ refusals qs

abbrev pub Outcome : Type 0
Outcome = Service × List Effect

unfoldable pub deliver : Service → Outcome
unfolding matching
deliver S = (
  record S { requests = (matching S.requests S.ready).1; ready = (matching S.requests S.ready).2 },
  (matching S.requests S.ready).0,
)

-- What two steps in a row make.
abbrev pub chain : Outcome → (Service → Outcome) → Outcome
chain (S, es) next = ((next S).0, es ++ (next S).1)

-- The end of a connection: requests that still wait are refused, and the manager is told.
unfoldable pub exiting : Service → Outcome
unfolding refusals
exiting S = (
  record S { closed = true; requests = [] },
  refusals S.requests ++ (send S.manager Ptype.text false (pos 0) (codes "CLOSED") ∷ exit ∷ []),
)

unfoldable pub close_down : Service → Outcome
unfolding deliver exiting
close_down S = chain (deliver S) exiting

-- A request takes the oldest package that is ready, or waits for the next.
unfoldable pub ask_open : List Bytes → Service → Request → Outcome
ask_open [] S req = (record S { requests = S.requests ++ (req ∷ []) }, [])
ask_open (m ∷ ms) S req = (record S { ready = ms }, hand req m ∷ [])

unfoldable pub ask : Service → Request → Outcome
unfolding ask_open
ask S req = if S.closed then (S, refuse req ∷ []) else ask_open S.ready S req

-- `size` is the length of the last body that was announced, which only this text shows.
unfoldable pub place : Decoder → ℕ → ℤ × ℕ
place idle size = (negsuc 0, size)
place (half a) size = (negsuc 0, 0)
place (body n got) size = (pos n, size)

unfoldable pub info : ℕ → Service → Bytes
unfolding place
info size S =
    info_text (length S.requests) (length S.ready) (place S.stream size).0 (place S.stream size).1

unfoldable pub obey : ℕ → Service → Request → Bytes → Outcome
unfolding ask info
obey size S req [] = (S, [])
obey size S req (c ∷ msg) =
    if c == b'R'
    then ask S req
    else if c == b'K'
    then (S, socket_shutdown S.fd ∷ [])
    else if c == b'I'
    then (S, send req.source Ptype.response false req.session (info size S) ∷ [])
    else (S, log (invalid_command (c ∷ msg)) ∷ refuse req ∷ [])

unfoldable pub report : Service → ℤ → Bytes → Outcome
report S id word =
    if not S.init && (id ==ℤ S.fd)
    then (record S { init = true }, send S.manager Ptype.text false (pos 0) word ∷ [])
    else (S, [])

unfoldable pub hang_up : Service → ℤ → Outcome
unfolding close_down
hang_up S id = if id ==ℤ S.fd then close_down S else (S, log (invalid_fd id S.fd) ∷ [])

unfoldable pub take_in : Service → Bytes → Outcome
unfolding deliver decode
take_in S msg =
    chain
      (
        record S {
          recv = S.recv + 1;
          stream = (decode S.stream msg).0;
          ready = S.ready ++ (decode S.stream msg).1;
        },
        free msg ∷ [],
      )
      deliver

unfoldable pub on_type : SocketType → Service → SocketMessage → Outcome
unfolding report hang_up take_in
on_type SocketType.connect S smsg = report S smsg.id (codes "SUCC")
on_type SocketType.close S smsg = chain (report S smsg.id (codes "FAIL")) (λ S'. hang_up S' smsg.id)
on_type SocketType.error S smsg = chain (report S smsg.id (codes "FAIL")) (λ S'. hang_up S' smsg.id)
on_type SocketType.received S smsg = take_in S smsg.buffer
on_type SocketType.warning S smsg = (S, log (overload S.fd) ∷ [])
on_type SocketType.other S smsg = (S, [])

unfoldable pub on_socket : Service → SocketMessage → Outcome
unfolding on_type
on_socket S smsg = on_type smsg.type S smsg

unfoldable pub beat : Service → Outcome
beat S =
    if pos S.recv ==ℤ S.heartbeat
    then (if not S.closed then (S, socket_shutdown S.fd ∷ log (timed_out S.fd) ∷ []) else (S, []))
    else (record S { heartbeat = pos 0; recv = 0 }, timeout timer_interval ∷ [])

unfoldable pub send_frame : Service → Bytes → Outcome
send_frame S msg =
    if ltb 0xffff (length msg)
    then (S, log (too_long (length msg)) ∷ [])
    else (S, socket_send S.fd (frame_header (length msg) ++ msg) ∷ [])

unfoldable pub serve : ℕ → Service → Message → Request → Outcome
unfolding obey on_socket beat send_frame
serve size S (Message.text msg) req = obey size S req msg
serve size S (Message.client msg) req = send_frame S msg
serve size S Message.response req = beat S
serve size S (Message.socket smsg) req = on_socket S smsg
serve size S Message.error req = (S, [])
serve size S Message.other req = if is_positive req.session then (S, refuse req ∷ []) else (S, [])
