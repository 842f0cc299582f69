-- ===== src/Package/Decoder.antt =====
-- What a byte stream means, byte by byte and with no buffers: packages of two length bytes, high
-- byte first, and a body. It is the reference for `new_message` of service_package.c.
pub mod Laws
use skynet_server.Common.{ℕ, zero, suc, ◌+◌, ◌*◌, List, [], ◌∷◌, ◌++◌}
use skynet_server.Common.Bytes.{Bytes}

-- Between packages, behind the first length byte, or inside a body with so many bytes missing.
pub data Decoder : Type 0 where
  idle : Decoder
  half : ℕ → Decoder
  body : ℕ → Bytes → Decoder

-- A body with no byte missing is a package.
unfoldable pub settle : Decoder → Decoder × List Bytes
settle idle = (idle, [])
settle (half a) = (half a, [])
settle (body zero got) = (idle, got ∷ [])
settle (body (suc n) got) = (body (suc n) got, [])

unfoldable pub feed_byte : Decoder → ℕ → Decoder × List Bytes
unfolding settle
feed_byte idle b = (half b, [])
feed_byte (half a) b = settle (body (a * 256 + b) [])
feed_byte (body zero got) b = (half b, got ∷ [])
feed_byte (body (suc n) got) b = settle (body n (got ++ b ∷ []))

-- The packages of a stretch of the stream, and where the decoder stands behind it.
unfoldable pub feed : Decoder → Bytes → Decoder × List Bytes
unfolding feed_byte
feed d [] = (d, [])
feed d (b ∷ bs) =
    ((feed (feed_byte d b).0 bs).0, (feed_byte d b).1 ++ (feed (feed_byte d b).0 bs).1)

unfoldable pub decode : Decoder → Bytes → Decoder × List Bytes
unfolding feed settle
decode d bs = ((feed (settle d).0 bs).0, (settle d).1 ++ (feed (settle d).0 bs).1)
