-- ===== src/Timer.antt =====
-- zincio/src/timer.rs: the hierarchical timing wheel and the timer over it.
pub mod Levels
pub mod Slab
pub mod Heap
pub mod Wheel
pub mod Clock
pub mod Tests
