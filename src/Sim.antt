-- ===== src/Sim.antt =====
-- The instruction-set simulator, tools/riscc_sim.py: class Sim and its helpers.
pub mod State
pub mod Memory
pub mod Alu
pub mod Exec
pub mod Register
pub mod Step
pub mod Run
pub mod Bounds
pub mod Frame
pub mod Progress
pub mod Cli
pub mod Framebuffer
