-- ===== src/Package/Handlers.antt =====
-- The handlers of service_package.c: `report_info`, `command`, `socket_message`,
-- `heartbeat`, `send_out`, `message_handler`, and the life of a package.
pub mod Loops
pub mod Refine
pub mod Init
use skynet_server.Common.{
  ℕ, zero, suc, ◌+◌, ◌-◌, ◌/◌, ◌%◌, ◌^◌, Bool, true, false, not, ◌&&◌, ◌||◌, Option, none, some,
  List, [], ◌∷◌, ◌++◌, length, take, replicate, ltb, leb, ◌==◌, if◌then◌else◌,
}
use skynet_server.Common.Bytes.{Bytes, codes, decimal}
use skynet_server.Common.Int.{ℤ, pos, negsuc, ◌==ℤ◌, is_positive}
use skynet_server.Package.Queue.{Queue, queue_empty, queue_size, queue_init, queue_pop, queue_push}
use skynet_server.Package.Types.{
  Package, Request, Response, Junk, Ptype, SocketType, SocketMessage, Message, Report, Effect, Run,
  ok, fault, out_of_fuel, send, log, socket_start, socket_nodelay, socket_shutdown, socket_send,
  timeout, callback, exit, free, after, and_then, emit, invalid_command, invalid_fd, overload,
  timed_out, too_long, invalid_param,
}
use skynet_server.Package.Receive.{new_message}
use skynet_server.Package.Answers.{
  reply_with, refuse, response_loop, response, exit_loop, service_exit,
}

-- `%d` of an `int`
abbrev pub print_int : ℤ → Bytes
print_int (pos n) = decimal n
print_int (negsuc n) = codes "-" ++ decimal (n + 1)

-- The text "req=%d resp=%d uncomplete=%d/%d".
abbrev pub info_text : ℕ → ℕ → ℤ → ℕ → Bytes
info_text req resp uncomplete size =
    codes "req="
    ++ (decimal req
        ++ (codes " resp="
            ++ (decimal resp
                ++ (codes " uncomplete="
                    ++ (print_int uncomplete ++ (codes "/" ++ decimal size))))))

-- The two numbers of "uncomplete=%d/%d".
unfoldable pub uncomplete_info : Package → ℤ × ℕ
uncomplete_info P =
    if not (P.header_sz == 0)
    then (negsuc 0, 0)
    else if P.uncomplete_sz ==ℤ pos 0
    then (pos 0, 0)
    else (P.uncomplete_sz, P.uncomplete.sz)

unfoldable pub report_info : Package → (session : ℤ) (source : ℕ) → Run
unfolding uncomplete_info
report_info P session source =
    emit
      (send source Ptype.response false session (
          info_text (queue_size P.request) (queue_size P.response) (uncomplete_info P).0
            (uncomplete_info P).1)
        ∷ [])
      P

module _ (J : Junk) where
  -- A request to a connection that is open.
  unfoldable pub request_open : Package → (session : ℤ) (source : ℕ) → Run
  request_open P session source =
      let req : Request = record { source = source; session = session } in
      if not (queue_empty P.response)
      then (if queue_empty P.request
          then elim (queue_pop J.response P.response) [
            | none ↦ fault
            | some (resp, responses) ↦
                emit (reply_with req resp ∷ []) (record P { response = responses })
          ]
          else fault)
      else emit [] (record P { request = queue_push J.request P.request req })

  -- The case 'R' of `command`.
  unfoldable pub request_package : Package → (session : ℤ) (source : ℕ) → Run
  unfolding request_open
  request_package P session source =
      if P.closed
      then emit (send source Ptype.error false session [] ∷ []) P
      else request_open P session source

  -- The command is the first byte; a read of it from an empty message is a fault.
  unfoldable pub command : Package → (session : ℤ) (source : ℕ) → Bytes → Run
  unfolding request_package report_info
  command P session source [] = fault
  command P session source (c ∷ msg) =
      if c == b'R'
      then request_package P session source
      else if c == b'K'
      then emit (socket_shutdown P.fd ∷ []) P
      else if c == b'I'
      then report_info P session source
      else emit (log (invalid_command (c ∷ msg)) ∷ send source Ptype.error false session [] ∷ []) P

-- The first report to the manager, of success or of failure.
abbrev pub report_once : Package → ℤ → Bytes → Run
report_once P id word =
    if not P.init && (id ==ℤ P.fd)
    then emit (send P.manager Ptype.text false (pos 0) word ∷ []) (record P { init = true })
    else emit [] P

module _ (J : Junk) where
  unfoldable pub socket_closed : Package → ℤ → Run
  unfolding response service_exit
  socket_closed P id = and_then (report_once P id (codes "FAIL")) λ P'.
      if id ==ℤ P'.fd
      then and_then (response J P') (service_exit J)
      else emit (log (invalid_fd id P'.fd) ∷ []) P'

  -- The case SKYNET_SOCKET_TYPE_DATA.
  unfoldable pub socket_data : Package → Bytes → Run
  unfolding response new_message
  socket_data P buffer =
      and_then (new_message J P buffer) λ P'. and_then (emit (free buffer ∷ []) P') (response J)

  -- `switch (smsg->type)`
  unfoldable pub on_socket_type : SocketType → Package → SocketMessage → Run
  unfolding socket_closed socket_data
  on_socket_type SocketType.connect P smsg = report_once P smsg.id (codes "SUCC")
  on_socket_type SocketType.close P smsg = socket_closed P smsg.id
  on_socket_type SocketType.error P smsg = socket_closed P smsg.id
  on_socket_type SocketType.received P smsg = socket_data P smsg.buffer
  on_socket_type SocketType.warning P smsg = emit (log (overload P.fd) ∷ []) P
  on_socket_type SocketType.other P smsg = emit [] P

  unfoldable pub socket_message : Package → SocketMessage → Run
  unfolding on_socket_type
  socket_message P smsg = on_socket_type smsg.type P smsg

-- TIMEOUT, in hundredths of a second.
abbrev pub timer_interval : ℕ
timer_interval = 1000

unfoldable pub heartbeat : Package → Run
heartbeat P =
    if pos P.recv ==ℤ P.heartbeat
    then (if not P.closed
        then emit (socket_shutdown P.fd ∷ log (timed_out P.fd) ∷ []) P
        else emit [] P)
    else emit (timeout timer_interval ∷ []) (record P { heartbeat = pos 0; recv = 0 })

-- The header is `(sz & 0xff00) >> 8` and `sz & 0xff`, for `sz` of at most 16 bits.
abbrev pub frame_header : ℕ → Bytes
frame_header sz = sz % 2 ^ 16 / 2 ^ 8 ∷ sz % 2 ^ 8 ∷ []

unfoldable pub send_out : Package → Bytes → Run
send_out P msg =
    if ltb 0xffff (length msg)
    then emit (log (too_long (length msg)) ∷ []) P
    else emit (socket_send P.fd (frame_header (length msg) ++ msg) ∷ []) P

-- The body in hand, if there is one.
abbrev pub partial_frees : ℤ → Bytes → List Effect
partial_frees (pos n) msg = free msg ∷ []
partial_frees (negsuc n) msg = []

module _ (J : Junk) where
  unfoldable pub message_handler : Package → Message → (session : ℤ) (source : ℕ) → Run
  unfolding command send_out heartbeat socket_message
  message_handler P (Message.text msg) session source = command J P session source msg
  message_handler P (Message.client msg) session source = send_out P msg
  message_handler P Message.response session source = heartbeat P
  message_handler P (Message.socket smsg) session source = socket_message J P smsg
  message_handler P Message.error session source = emit [] P
  message_handler P Message.other session source =
      if is_positive session
      then emit (send source Ptype.error false session [] ∷ []) P
      else emit [] P

  unfoldable pub package_create : Package
  unfolding queue_init
  package_create = record {
    manager = 0;
    fd = pos 0;
    heartbeat = negsuc 0;
    recv = 0;
    init = false;
    closed = false;
    header_sz = 0;
    header_0 = 0;
    header_1 = 0;
    uncomplete_sz = negsuc 0;
    uncomplete = record { sz = 0; msg = [] };
    request = queue_init J.request;
    response = queue_init J.response;
  }

  unfoldable pub release_loop : ℕ → Package → Run
  release_loop zero P = out_of_fuel
  release_loop (suc f) P = elim (queue_empty P.response) [
    | true ↦ ok P []
    | false ↦ elim (queue_pop J.response P.response) [
      | none ↦ fault
      | some (resp, responses) ↦
          after (free resp.msg ∷ []) (release_loop f (record P { response = responses }))
    ]
  ]

  -- The buffers of the queues and the package itself go last, and are not listed.
  unfoldable pub package_release : Package → Run
  unfolding release_loop
  package_release P =
      and_then (release_loop (queue_size P.response + 1) P)
        λ P'. emit (partial_frees P'.uncomplete_sz P'.uncomplete.msg) P'

-- `n` is what `sscanf(param, "%u %d", ...)` returns (0 for EOF), `manager` and `fd` what it assigns
-- if it gets that far. The flag is the return value.
unfoldable pub package_init : Package → (n manager : ℕ) (fd : ℤ) → Run × Bool
unfolding heartbeat
package_init P n manager fd =
    let P' = record P {
      manager = if ltb 0 n then manager else P.manager;
      fd = if ltb 1 n then fd else P.fd;
    } in
    if not (n == 2) || (P'.manager == 0 || (P'.fd ==ℤ pos 0))
    then (emit (log invalid_param ∷ []) P', true)
    else (
      and_then (emit (socket_start P'.fd ∷ socket_nodelay P'.fd ∷ []) P')
          (λ Q. and_then (heartbeat Q) (emit (callback ∷ []))),
      false,
    )
