-- ===== src/Sim/Bounds.antt =====
-- tools/riscc_sim.py: the widths of the simulator's state, value by value, group by group of the
-- instructions, and for a whole step.
pub mod Values
pub mod Memory
pub mod Handlers
pub mod Register
pub mod Step
