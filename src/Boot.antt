-- ===== src/Boot.antt =====
-- The tools that make memory contents: tools/bin_to_memh.py and tools/update_ecp5_bootram.py.
pub mod Memh
pub mod Ecp5
