-- ===== src/Package/Types.antt =====
-- The data of service_package.c: `struct request`, `struct response` and `struct package`, the
-- messages that the framework delivers, and the calls of the framework that a handler makes.
-- The framework itself (skynet.h, skynet_socket.h) is not part of the repository: a call of it is
-- an `Effect` in the order of the calls.
use skynet_server.Common.{ℕ, Bool, List, ◌++◌}
use skynet_server.Common.Bytes.{Bytes}
use skynet_server.Common.Int.{ℤ}
use skynet_server.Package.Queue.{Queue}

-- `sz` is the size of the buffer `msg`.
pub record Response : Type 0 where
  pub sz : ℕ
  pub msg : Bytes

pub record Request : Type 0 where
  pub source : ℕ
  pub session : ℤ

-- `header_0` and `header_1` are the array `header`; the flags `init` and `closed` are Booleans.
pub record Package : Type 0 where
  pub manager : ℕ
  pub fd : ℤ
  pub heartbeat : ℤ
  pub recv : ℕ
  pub init : Bool
  pub closed : Bool
  pub header_sz : ℕ
  pub header_0 : ℕ
  pub header_1 : ℕ
  pub uncomplete_sz : ℤ
  pub uncomplete : Response
  pub request : Queue Request
  pub response : Queue Response

-- What `malloc` leaves in a cell that nothing has written yet.
pub record Junk : Type 0 where
  pub byte : ℕ
  pub request : Request
  pub response : Response

-- The types of messages, PTYPE_TEXT and so on.
pub data Ptype : Type 0 where
  text client response socket error other : Ptype

-- The types of socket messages, SKYNET_SOCKET_TYPE_CONNECT and so on.
pub data SocketType : Type 0 where
  connect close error received warning other : SocketType

-- `ud` is the length of `buffer`.
pub record SocketMessage : Type 0 where
  pub type : SocketType
  pub id : ℤ
  pub buffer : Bytes

-- A message with what its type says is in it.
pub data Message : Type 0 where
  text : Bytes → Message
  client : Bytes → Message
  response : Message
  socket : SocketMessage → Message
  error : Message
  other : Message

-- What `skynet_error` logs.
pub data Report : Type 0 where
  invalid_command : Bytes → Report
  invalid_fd : ℤ → ℤ → Report
  overload : ℤ → Report
  timed_out : ℤ → Report
  too_long : ℕ → Report
  invalid_param : Report

-- `send dest type nocopy session msg` is `skynet_send`, `nocopy` the flag PTYPE_TAG_DONTCOPY.
pub data Effect : Type 0 where
  send : ℕ → Ptype → Bool → ℤ → Bytes → Effect
  log : Report → Effect
  socket_start : ℤ → Effect
  socket_nodelay : ℤ → Effect
  socket_shutdown : ℤ → Effect
  socket_send : ℤ → Bytes → Effect
  timeout : ℕ → Effect
  callback : Effect
  exit : Effect
  free : Bytes → Effect

-- A run of a handler: the new state and the calls made, a failed `assert` or a read of what is not
-- there, or a loop that ran out of fuel.
pub data Run : Type 0 where
  ok : Package → List Effect → Run
  fault : Run
  out_of_fuel : Run

-- Calls made before a run.
abbrev pub after : List Effect → Run → Run
after es (ok p fs) = ok p (es ++ fs)
after es fault = fault
after es out_of_fuel = out_of_fuel

abbrev pub and_then : Run → (Package → Run) → Run
and_then (ok p es) k = after es (k p)
and_then fault k = fault
and_then out_of_fuel k = out_of_fuel

abbrev pub emit : List Effect → Package → Run
emit es p = ok p es
