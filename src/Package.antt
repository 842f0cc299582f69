-- ===== src/Package.antt =====
-- The package service, server/lualib-src/service_package.c: it cuts the byte stream of a
-- connection into packages, and hands each to the request that waits longest.
pub mod Queue
pub mod Types
pub mod Receive
pub mod Decoder
pub mod Answers
pub mod Handlers
pub mod Spec
pub mod Flow
mod Tests
