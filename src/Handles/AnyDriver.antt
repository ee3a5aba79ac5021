-- ===== src/Handles/AnyDriver.antt =====
-- The drivers of `AnyDriver` (driver/mod.rs) as handles use them; each keeps the laws of `Driver`.
pub mod Uring
pub mod Mio
