-- ===== src/Ops/Transfers.antt =====
-- The operations that move bytes (zincio/src/op), over `UringDriver` and over a driver of polls.
pub mod Read
pub mod Write
pub mod ReadAt
pub mod WriteAt
pub mod Recv
pub mod Send
pub mod Readv
pub mod Writev
pub mod Splice
