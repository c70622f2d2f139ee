-- ===== src/Fuzz.antt =====
-- The differential fuzzer, tools/riscc_fuzz.py: its generators of random programs.
pub mod Format
pub mod Random
pub mod Config
pub mod Lines
pub mod Search
pub mod Shape
pub mod Rc16
pub mod Nano
pub mod Rc32
pub mod Compare
pub mod Campaign
