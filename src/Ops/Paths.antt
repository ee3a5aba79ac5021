-- ===== src/Ops/Paths.antt =====
-- The operations on paths and on whole files (zincio/src/op), over `UringDriver`.
pub mod Open
pub mod MkDir
pub mod Unlink
pub mod Rename
pub mod Symlink
pub mod HardLink
pub mod Fsync
pub mod Statx
