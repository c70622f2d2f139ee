-- ===== src/Asm.antt =====
-- The reference assembler, tools/riscc_asm.py.
pub mod Text
pub mod Source
pub mod Expr
pub mod Syntax
pub mod Encode
pub mod Insn
pub mod Preprocess
pub mod Parse
pub mod Layout
pub mod Cli
