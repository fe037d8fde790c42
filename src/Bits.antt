-- ===== src/Bits.antt =====
-- Laws of the bitwise or, exclusive or and and, at every width.
mod Step
pub mod Bounds
pub mod Split
