-- ===== src/Netpack/Stream.antt =====
-- The stream of a connection as the frames that the peer sends one after the other, and what the
-- program keeps of a frame that has arrived in part.
pub mod Find
pub mod Save
pub mod Pushed
pub mod Push
pub mod Fill
pub mod Resume
pub mod Same
pub mod Answer
pub mod Start
pub mod Body
pub mod Head
pub mod Filter
pub mod Huge
pub mod Cut
pub mod Feed
pub mod Shake
pub mod Reader
pub mod Life
pub mod Interleave
mod Tests
use skynet_server.Common.{
  ℕ, zero, suc, ◌+◌, ◌≤◌, ◌<◌, ◌≡◌, ◌≢◌, Option, none, some, List, [], ◌∷◌, ◌++◌, length, take,
}
use skynet_server.Common.Bytes.{Bytes}
use skynet_server.Common.Int.{ℤ, pos, negsuc}
use skynet_server.Netpack.Types.{Netpack, Uncomplete}
use skynet_server.Netpack.Frame.Wire.{IsKey, wire_header, wire}
use skynet_server.Netpack.Frame.Unmask.{payload, counted}
use skynet_server.Netpack.Hash.{fresh_uncomplete}
use skynet_server.Netpack.Push.{max_packsize}

-- A final frame; `body` is its payload as it is sent.
pub record Sent : Type 0 where
  pub opcode : ℕ
  pub mask : Option Bytes
  pub body : Bytes

-- Frames that carry data, up to the size that the program takes.
pub record IsSent (s : Sent) : Type 0 where
  pub not_zero : 0 < s.opcode
  pub four_bits : s.opcode < 16
  pub not_close : s.opcode ≢ 8
  pub keyed : IsKey s.mask
  pub fits : length s.body ≤ max_packsize

abbrev pub AllSent : List Sent → Type 0
AllSent [] = Unit
AllSent (s ∷ ss) = IsSent s × AllSent ss

abbrev pub bytes : Sent → Bytes
bytes s = wire s.opcode s.mask s.body

abbrev pub header : Sent → Bytes
header s = wire_header s.opcode s.mask (length s.body)

abbrev pub stream : List Sent → Bytes
stream [] = []
stream (s ∷ ss) = bytes s ++ stream ss

-- The frame as it is queued.
abbrev pub delivered : ℕ → Sent → Netpack
delivered fd s = record { id = fd; size = length s.body; buffer = payload s.mask s.body }

-- What has arrived of the frame that is not complete, and how the node stands for it.
pub data Partly (tail : Bytes) : Type 0 where
  -- the bytes of a header, not all
  in_header :
      (s : Sent) (r : ℕ) (rest : Bytes) → IsSent s → header s ≡ tail ++ (r ∷ rest) → Partly tail
  -- a header and the bytes of a body, not all
  in_body :
      (s : Sent) (part : Bytes) (r : ℕ) (rest : Bytes)
      → IsSent s
      → tail ≡ header s ++ part
      → s.body ≡ part ++ (r ∷ rest)
      → Partly tail

-- The node for a header, and the one for a body of which `n` bytes have been copied to `buffer`.
abbrev pub header_node : ℕ → Bytes → Uncomplete
header_node fd part = record (fresh_uncomplete fd) { read = negsuc 0; header = part }

abbrev pub body_node :
    (fd : ℕ) → Option Bytes → (len : ℕ) → (header buffer : Bytes) → ℕ → Uncomplete
body_node fd mask len header buffer n = record {
  pack = record { id = fd; size = len; buffer = buffer };
  header = header;
  read = pos n;
  mask = mask;
  hasunmask_size = counted mask n;
}

-- The buffer has room for the payload and starts with that of `part`.
pub record Holds (mask : Option Bytes) (len : ℕ) (part buffer : Bytes) : Type 0 where
  pub room : length buffer ≡ len
  pub copied : take (length part) buffer ≡ payload mask part

abbrev pub StandsFor : {tail : Bytes} → ℕ → Partly tail → Uncomplete → Type 0
StandsFor {tail = tail} fd (in_header s r rest i e) uc = uc ≡ header_node fd tail
StandsFor fd (in_body s part r rest i t e) uc =
    (header : Bytes) × (buffer : Bytes) × (uc
      ≡ body_node fd s.mask (length s.body) header buffer (length part))
    × Holds s.mask (length s.body) part buffer
