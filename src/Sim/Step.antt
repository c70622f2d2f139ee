-- ===== src/Sim/Step.antt =====
-- tools/riscc_sim.py: `emit_trace`, and `Sim.step` with its interrupt test.
pub mod Interrupt
pub mod Entry
use riscc.Prelude.{
  ℕ, ◌+◌, ◌*◌, ◌%◌, ◌^◌, Bool, not, ◌&&◌, ◌||◌, [], ◌∷◌, ◌++◌, ◌==◌, if◌then◌else◌, bit_and,
}
use riscc.Prelude.Result.{Result, ok, ◌>>=◌}
use riscc.Sim.State.{Sim, update, service_uart, uart_irq}
use riscc.Sim.Alu.{Undefined}
use riscc.Sim.Exec.{Next}
use riscc.Sim.Register.{execute}

-- The line shows the state after the instruction.
unfoldable pub emit_trace : Sim → ℕ → Sim
emit_trace m ir =
    if m.trace
    then record m {
      printed =
          m.printed
          ++ (record {
            trace_step = m.trace_steps;
            trace_pc = m.pc % 2 ^ 15;
            trace_ir = ir % 2 ^ 16;
            trace_ie = bit_and m.ie 1;
            trace_r = m.r;
            trace_s = m.s;
          })
            ∷ [];
      trace_steps = m.trace_steps + 1;
    }
    else m

abbrev pub irq_pending : Sim → Bool
irq_pending m = m.sys_tier && not (m.ie == 0) && (not (m.irq_line == 0) || uart_irq m)

unfoldable pub take_irq : Sim → ℕ → Sim
unfolding emit_trace
take_irq m ir =
    emit_trace
      (record m {
        s = update m.s 0 (m.pc * 2 % 2 ^ 16);
        ie = 0;
        pc = 2;
        irq_taken = m.irq_taken + 1;
      })
      ir

-- `self.pc = pc_next; self.emit_trace(...)`
unfoldable pub finish : ℕ → Next → Sim
unfolding emit_trace
finish ir (m, pc_next) = emit_trace (record m { pc = pc_next }) ir

-- The instruction itself, which counts.
unfoldable pub instruction : Sim → ℕ → Result Undefined Sim
unfolding finish execute
instruction m ir = do
  next ← execute (record m { insns = m.insns + 1 }) ir ((m.pc + 1) % 2 ^ 15)
  ok (finish ir next)

abbrev pub fetch : Sim → ℕ
fetch m = m.mem (m.pc % 2 ^ 15)

unfoldable pub step : Sim → Result Undefined Sim
unfolding service_uart uart_irq take_irq instruction
step m₀ =
    let m = service_uart m₀ in
    if irq_pending m then ok (take_irq m (fetch m)) else instruction m (fetch m)
