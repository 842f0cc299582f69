-- ===== src/Client.antt =====
-- The web socket client for tests, server/lualib-src/lua-clientwebsocket.c: it sends messages as
-- frames, reads frames, and passes on the lines of the standard input.
pub mod Socket
pub mod Send
pub mod Connect
pub mod Receive
pub mod Stdin
pub mod Wire
mod Tests
