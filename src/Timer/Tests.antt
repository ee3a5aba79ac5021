-- ===== src/Timer/Tests.antt =====
-- The wheel and the timer on concrete inputs, and each theorem of `Timer` applied to one.
pub mod VecSlab
mod Runs
mod WheelWitnesses
mod ClockWitnesses
