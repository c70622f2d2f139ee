-- ===== src/Sim/Frame.antt =====
-- tools/riscc_sim.py: what an instruction leaves alone: the options, the instruction counter, the
-- interrupt counter, the trace, and the bytes that still wait at the UART.
use riscc.Prelude.{ℕ, ◌+◌, ◌*◌, ◌%◌, ◌^◌, ◌≡◌, arith, bit_and}
use riscc.Prelude.Result.{Result, ok, err}
use riscc.Sim.State.{Sim, sx8}
use riscc.Sim.Memory.{load_word, store_word, stb}
use riscc.Sim.Alu.{Undefined}
use riscc.Prelude.Int.{pos, ◌+ℤ◌, low_bits}
use riscc.Sim.Exec.{
  Next, aaa, bbb, ddd, imm8, exec_long, exec_mem, exec_branch, exec_imm, exec_mdu, exec_control,
  exec_sys,
}
use riscc.Sim.Register.{exec_shift, exec_direct, exec_register, execute}

abbrev pub Same : Sim → Sim → Type 0
Same m m' =
    (m'.profile ≡ m.profile)
    × (m'.insns ≡ m.insns)
    × (m'.irq_taken ≡ m.irq_taken)
    × (m'.trace_steps ≡ m.trace_steps)
    × (m'.printed ≡ m.printed)
    × (m'.uart_in ≡ m.uart_in)

abbrev pub Leaves : Sim → Result Undefined Next → Type 0
Leaves m (ok (m', pc_next)) = Same m m'
Leaves m (err e) = Unit

module _ (m : Sim) where
  load_word-Same : (a : ℕ) → Same m (load_word m a).1
  unfolding load_word
  load_word-Same a = ground arith

  store_word-Same : (a v mask : ℕ) → Same m (store_word m a v mask)
  unfolding store_word
  store_word-Same a v mask = ground arith

  stb-Same : (a v : ℕ) → Same m (stb m a v)
  unfolding stb
  stb-Same a v =
      ground
        (arith, store_word-Same a (bit_and v 0xff * 2 ^ 8) 2, store_word-Same a (bit_and v 0xff) 1)

  module _ (ir pc_next : ℕ) where
    exec_long-Leaves : Leaves m (exec_long m ir pc_next)
    unfolding exec_long
    exec_long-Leaves = ground arith

    exec_mem-Leaves : Leaves m (exec_mem m ir pc_next)
    unfolding exec_mem
    exec_mem-Leaves =
        let addr = low_bits 16 (pos (m.r (aaa ir)) +ℤ sx8 (bit_and (imm8 ir) 0xfe)) in
        ground (arith, store_word-Same addr (m.r (ddd ir)) 3, load_word-Same addr)

    exec_branch-Leaves : Leaves m (exec_branch m ir pc_next)
    unfolding exec_branch
    exec_branch-Leaves = ground arith

    exec_imm-Leaves : Leaves m (exec_imm m ir pc_next)
    unfolding exec_imm
    exec_imm-Leaves = ground (arith, exec_branch-Leaves)

    exec_mdu-Leaves : Leaves m (exec_mdu m ir pc_next)
    unfolding exec_mdu
    exec_mdu-Leaves = ground arith

    exec_control-Leaves : Leaves m (exec_control m ir pc_next)
    unfolding exec_control
    exec_control-Leaves = ground arith

    exec_sys-Leaves : Leaves m (exec_sys m ir pc_next)
    unfolding exec_sys
    exec_sys-Leaves = ground (arith, exec_control-Leaves)

    exec_shift-Leaves : Leaves m (exec_shift m ir pc_next)
    unfolding exec_shift
    exec_shift-Leaves = ground arith

    exec_direct-Leaves : Leaves m (exec_direct m ir pc_next)
    unfolding exec_direct
    exec_direct-Leaves = ground (
      arith,
      load_word-Same ((m.r (aaa ir) + m.r (bbb ir)) % 2 ^ 16),
      stb-Same (m.r (aaa ir)) (m.r (ddd ir)),
    )

    exec_register-Leaves : Leaves m (exec_register m ir pc_next)
    unfolding exec_register
    exec_register-Leaves =
        ground (arith, exec_direct-Leaves, exec_shift-Leaves, exec_mdu-Leaves, exec_sys-Leaves)

    -- An instruction, if it does not raise, leaves the options, the instruction and interrupt
    -- counters, the trace, and the bytes that wait at the UART as they are.
    pub execute-Leaves : Leaves m (execute m ir pc_next)
    unfolding execute
    execute-Leaves =
        ground (arith, exec_long-Leaves, exec_mem-Leaves, exec_imm-Leaves, exec_register-Leaves)
