-- ===== src/Drivers.antt =====
-- zincio/src/driver: the state that the drivers keep for handles and operations in flight.
pub mod Slab
pub mod Uring
pub mod Mio
mod Tests
