-- ===== src/Toolchain.antt =====
-- The assembler of tools/riscc_asm.py against the simulator of tools/riscc_sim.py: what an encoded
-- instruction does when it is executed.
pub mod Decode
pub mod Inversion
pub mod Alu
pub mod Branch
pub mod Immediate
pub mod Access
