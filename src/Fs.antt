-- ===== src/Fs.antt =====
-- zincio/src/fs: the options that a file is opened with.
pub mod OpenOptions
pub mod File
mod Tests
