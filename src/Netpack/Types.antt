-- ===== src/Netpack/Types.antt =====
-- The structures of lua-websocketnetpack.c.
use skynet_server.Common.{ℕ, Option, List}
use skynet_server.Common.Bytes.{Bytes}
use skynet_server.Common.Int.{ℤ}

-- `struct netpack`: a frame and the connection that it came from.
pub record Netpack : Type 0 where
  pub id : ℕ
  pub size : ℕ
  pub buffer : Bytes

-- `struct uncomplete`. `header` is the part of the array `header` that is in use, `header_size` its
-- length; `mask` is there if `ismask` is set. The link `next` is the order of the list that holds it.
pub record Uncomplete : Type 0 where
  pub pack : Netpack
  pub header : Bytes
  pub read : ℤ
  pub mask : Option Bytes
  pub hasunmask_size : ℕ

-- `struct queue`: the ring of frames and the hash table of what is not complete, the function from
-- the number of a chain to its nodes.
pub record Queue : Type 0 where
  pub cap : ℕ
  pub head : ℕ
  pub tail : ℕ
  pub hash : ℕ → List Uncomplete
  pub queue : List Netpack

-- The bytes that `malloc` and a new user datum leave unwritten.
pub record Junk : Type 0 where
  pub cell : Netpack
  pub byte : ℕ

-- What `lfilter` returns after the queue: nothing, a frame, the news that frames are queued, or the
-- events of the socket.
pub data Answer : Type 0 where
  nothing : Answer
  data_frame : (fd : ℕ) → (msg : Bytes) → (size : ℕ) → Answer
  more : Answer
  closed : (fd : ℕ) → Answer
  opened : (fd : ℕ) → Bytes → Answer
  failed : (fd : ℕ) → Bytes → Answer
  warned : (fd ud : ℕ) → Answer

-- `fault`: an access out of bounds, a negative size for `malloc` or `memcpy`, or a failed `assert`.
pub data Run (A : Type 0) : Type 0 where
  done : A → Run A
  fault : Run A
  out_of_fuel : Run A

-- The types of socket messages, SKYNET_SOCKET_TYPE_DATA and so on.
pub data SocketType : Type 0 where
  received connect close accept error warning other : SocketType

-- `struct skynet_socket_message`, which skynet_socket.h declares: `buffer` is the memory that it
-- points to, of `ud` bytes for data, and `padding` the text behind the message, there without it.
pub record Message : Type 0 where
  pub type : SocketType
  pub id : ℕ
  pub ud : ℕ
  pub buffer : Option Bytes
  pub padding : Bytes
