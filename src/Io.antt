-- ===== src/Io.antt =====
-- zincio/src/io: buffers with a cursor, and the copy of a reader to a writer.
pub mod Buf
pub mod Stream
pub mod Copy
mod Tests
