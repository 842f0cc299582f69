-- ===== src/Netpack.antt =====
-- The web socket splitter, server/lualib-src/lua-websocketnetpack.c: it cuts the bytes of many
-- connections into frames, removes their masks, keeps what is not complete in a hash table, and
-- queues frames that a message holds beyond the first.
pub mod Frame
pub mod Handshake
pub mod Types
pub mod Queue
pub mod Hash
pub mod Push
pub mod Filter
pub mod Stream
mod Samples
mod Tests
