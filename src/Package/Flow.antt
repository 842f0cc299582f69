-- ===== src/Package/Flow.antt =====
-- Runs of the package service: what becomes of the packages in the stream and of the requests, over
-- any sequence of messages.
pub mod Step
pub mod Delivery
pub mod RoundTrip
pub mod Counts
pub mod Timer
use skynet_server.Common.{ℕ, Bool, true, false, List, [], ◌∷◌, ◌++◌, ◌==◌, if◌then◌else◌}
use skynet_server.Common.Bytes.{Bytes}
use skynet_server.Package.Types.{
  Package, Request, Junk, Ptype, SocketType, SocketMessage, Message, Effect, Run, ok, send,
  and_then,
}
use skynet_server.Package.Handlers.{message_handler}
use skynet_server.Package.Handlers.Refine.Serve.{HasCommand}

-- A message and the sender that an answer goes to.
pub record Event : Type 0 where
  pub message : Message
  pub from : Request

-- The framework calls `message_handler` for one message after the other.
unfoldable pub run : Junk → Package → List Event → Run
run J P [] = ok P []
run J P (e ∷ events) =
    and_then (message_handler J P e.message e.from.session e.from.source) λ P'. run J P' events

abbrev pub AllCommands : List Event → Type 0
AllCommands [] = Unit
AllCommands (e ∷ events) = HasCommand e.message × AllCommands events

-- The bytes that a message brings from the socket.
unfoldable pub socket_bytes : SocketType → Bytes → Bytes
socket_bytes SocketType.connect bs = []
socket_bytes SocketType.close bs = []
socket_bytes SocketType.error bs = []
socket_bytes SocketType.received bs = bs
socket_bytes SocketType.warning bs = []
socket_bytes SocketType.other bs = []

unfoldable pub incoming : Message → Bytes
unfolding socket_bytes
incoming (Message.text msg) = []
incoming (Message.client msg) = []
incoming Message.response = []
incoming (Message.socket smsg) = socket_bytes smsg.type smsg.buffer
incoming Message.error = []
incoming Message.other = []

-- The byte stream of the connection.
unfoldable pub stream_of : List Event → Bytes
unfolding incoming
stream_of [] = []
stream_of (e ∷ events) = incoming e.message ++ stream_of events

-- A call that hands a package to a request: the package, and who gets it.
unfoldable pub handed_by : Effect → List (Request × Bytes)
handed_by (send source Ptype.response true session msg) =
    (record { source = source; session = session }, msg) ∷ []
handed_by _ = []

unfoldable pub handed : List Effect → List (Request × Bytes)
unfolding handed_by
handed [] = []
handed (e ∷ es) = handed_by e ++ handed es
