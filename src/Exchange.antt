-- ===== src/Exchange.antt =====
-- The two ends of a connection together: what lua-clientwebsocket.c sends is what the splitter of
-- lua-websocketnetpack.c reads, and what `lpack` makes is what the client receives.
pub mod Upstream
pub mod Downstream
pub mod Answer
pub mod Handshake
pub mod Loop
pub mod Piece
pub mod Request
mod Tests
