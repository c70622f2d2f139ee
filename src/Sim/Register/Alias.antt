-- ===== src/Sim/Register/Alias.antt =====
-- tools/riscc_sim.py: the dispatch sends every word of the long opcode space but JALL to the
-- register format.
use riscc.Prelude.{ℕ, ◌+◌, ◌^◌, ◌<◌, ◌≡◌, ◌≢◌, arith, bit_and}
use riscc.Prelude.Bits.{bit_and_split}
use riscc.Sim.State.{Sim}
use riscc.Sim.Exec.{ddd, aaa, bbb, f5, exec_mdu, exec_sys}
use riscc.Sim.Register.{exec_register, execute}

module _ (m : Sim) (ir pc_next : ℕ) (long : ir < 2 ^ 14) where
  fields :
      (ddd (ir + 0xc000) ≡ ddd ir)
      × (aaa (ir + 0xc000) ≡ aaa ir)
      × (f5 (ir + 0xc000) ≡ f5 ir)
      × (bbb (ir + 0xc000) ≡ bbb ir)
  fields = omega arith

  sys_alias : exec_sys m (ir + 0xc000) pc_next ≡ exec_sys m ir pc_next
  unfolding exec_sys
  sys_alias = rw (fields.0, fields.1, fields.3)

  mdu_alias : exec_mdu m (ir + 0xc000) pc_next ≡ exec_mdu m ir pc_next
  unfolding exec_mdu
  mdu_alias = rw (fields.0, fields.1, fields.2, fields.3)

  register_alias : exec_register m (ir + 0xc000) pc_next ≡ exec_register m ir pc_next
  unfolding exec_register
  register_alias = rw (fields.0, fields.1, fields.2, fields.3, mdu_alias, sys_alias)

  high_mask : bit_and (ir + 0xc000) 0xc7ff ≡ 0xc000 + bit_and ir 0xc7ff
  high_mask = ground (arith, bit_and_split 14 (ir + 0xc000) 0xc7ff, bit_and_split 14 ir 0xc7ff)

  -- A word below 0x4000 that is not JALL executes exactly as the register-format word with the
  -- same fields.
  pub execute_long_space :
      bit_and ir 0xc7ff ≢ 0x0034 → execute m ir pc_next ≡ execute m (ir + 0xc000) pc_next
  unfolding execute
  execute_long_space h = ground (arith, high_mask, register_alias)
