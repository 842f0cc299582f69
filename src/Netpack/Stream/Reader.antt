-- ===== src/Netpack/Stream/Reader.antt =====
-- A reader of many connections that keeps only bytes: the specification of `lfilter` and `lpop`.
use skynet_server.Common.{
  ℕ, ◌<◌, ◌≡◌, ◌⊎◌, none, some, List, [], ◌∷◌, ◌++◌, map, length, ◌==◌, if◌then◌else◌,
}
use skynet_server.Common.Bytes.{Bytes}
use skynet_server.Netpack.Types.{
  Netpack, Message, received, connect, close, accept, error, warning, other,
}
use skynet_server.Netpack.Stream.{Sent, AllSent, stream, delivered, Partly}

-- The message of the socket for a piece of a connection.
abbrev pub data_message : ℕ → Bytes → Message
data_message fd piece = record {
  type = received;
  id = fd;
  ud = length piece;
  buffer = some piece;
  padding = [];
}

-- The bytes that are kept of each connection, with those of one changed.
abbrev pub keep : ℕ → Bytes → (ℕ → Bytes) → ℕ → Bytes
keep fd tail kept x = if fd == x then tail else kept x

-- A message that ends a connection, and one that is no news of its bytes.
pub data Ends (m : Message) : Type 0 where
  closes : m.type ≡ close → Ends m
  fails : m.type ≡ error → m.buffer ≡ none → Ends m

pub data Passes (m : Message) : Type 0 where
  connects : m.type ≡ connect → Passes m
  accepts : m.type ≡ accept → m.buffer ≡ none → Passes m
  warns : m.type ≡ warning → Passes m
  is_other : m.type ≡ other → Passes m

-- A reader that keeps the bytes of each connection behind its last whole frame: a piece gives the
-- frames that it makes whole, and the end of a connection drops what is kept of it.
pub data Reads : (ℕ → Bytes) → List Message → List Netpack → (ℕ → Bytes) → Type 0 where
  at_end : (kept : ℕ → Bytes) → Reads kept [] [] kept
  piece_read :
      (kept : ℕ → Bytes) (fd : ℕ) (piece : Bytes) (before : List Sent) (tail : Bytes)
      (messages : List Message) (frames : List Netpack) (last : ℕ → Bytes)
      → 0 < length piece
      → AllSent before
      → (tail ≡ []) ⊎ Partly tail
      → kept fd ++ piece ≡ stream before ++ tail
      → Reads (keep fd tail kept) messages frames last
      → Reads kept (data_message fd piece ∷ messages) (map (delivered fd) before ++ frames) last
  ended :
      (kept : ℕ → Bytes) (m : Message) (messages : List Message) (frames : List Netpack)
      (last : ℕ → Bytes)
      → Ends m
      → Reads (keep m.id [] kept) messages frames last
      → Reads kept (m ∷ messages) frames last
  passed :
      (kept : ℕ → Bytes) (m : Message) (messages : List Message) (frames : List Netpack)
      (last : ℕ → Bytes)
      → Passes m
      → Reads kept messages frames last
      → Reads kept (m ∷ messages) frames last
