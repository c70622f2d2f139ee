-- ===== src/Tests.antt =====
-- Runs of the models on small inputs, and the theorems at inputs that meet their hypotheses.
mod Python
mod Programs
mod Machine
mod Memory
mod Assembler
mod Fuzzer
