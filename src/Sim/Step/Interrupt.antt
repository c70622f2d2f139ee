-- ===== src/Sim/Step/Interrupt.antt =====
-- tools/riscc_sim.py: interrupt entry, and the return from it by RETI S0.
use riscc.Prelude.{ℕ, ◌+◌, ◌*◌, ◌/◌, ◌%◌, ◌^◌, ◌<◌, ◌≡◌, ◌≢◌, ◌∙◌, ap, true, false, arith}
use riscc.Prelude.Result.{ok}
use riscc.Sim.State.{Sim, service_uart}
use riscc.Sim.Exec.{exec_sys, exec_control, Next}
use riscc.Sim.Register.{execute, exec_register}
use riscc.Sim.Step.{irq_pending, take_irq, emit_trace, finish, fetch, instruction, step}

-- What an entry does: the interrupted address is saved in S0, interrupts are masked, execution goes
-- on at word 2, and the registers, the other S-registers and the memory are kept.
pub record Enters (m m' : Sim) : Type 0 where
  pub saved : m'.s 0 ≡ m.pc * 2
  pub masked : m'.ie ≡ 0
  pub vector : m'.pc ≡ 2
  pub registers : m'.r ≡ m.r
  pub memory : m'.mem ≡ m.mem
  pub sregisters : (j : ℕ) → j ≢ 0 → m'.s j ≡ m.s j

-- The entry that a step makes, after the UART was serviced.
pub take_irq-Enters :
    (m : Sim) → m.pc < 2 ^ 15 → Enters m (take_irq (service_uart m) (fetch (service_uart m)))
unfolding take_irq emit_trace service_uart
take_irq-Enters m h = record {
  saved = ground arith;
  masked = ground arith;
  vector = ground arith;
  registers = ground arith;
  memory = ground arith;
  sregisters = λ j q. ground arith;
}

-- RETI S0
abbrev pub reti_s0 : ℕ
reti_s0 = 0xe8f8

reti_executes :
    (m : Sim) (pc_next : ℕ)
    → m.nano ≡ false
    → m.sys_tier ≡ true
    → execute m reti_s0 pc_next ≡ ok (record m { ie = 1 }, m.s 0 / 2 % 2 ^ 15)
unfolding execute exec_register exec_sys exec_control
reti_executes m pc_next n s = ground arith

-- The UART's service routine touches only the UART.
service_uart_keeps :
    (m : Sim)
    → ((service_uart m).mem ≡ m.mem)
      × ((service_uart m).r ≡ m.r)
      × ((service_uart m).s ≡ m.s)
      × ((service_uart m).pc ≡ m.pc)
      × ((service_uart m).ie ≡ m.ie)
      × ((service_uart m).insns ≡ m.insns)
      × ((service_uart m).profile ≡ m.profile)
unfolding service_uart
service_uart_keeps m = ground arith

-- With interrupts masked a step is the instruction.
pub step_masked :
    (m : Sim) → m.ie ≡ 0 → step m ≡ instruction (service_uart m) (fetch (service_uart m))
unfolding step
step_masked m h = rw (not_pending m h)
  where
    not_pending : (n : Sim) → n.ie ≡ 0 → irq_pending (service_uart n) ≡ false
    not_pending n k = ground (arith, service_uart_keeps n)

pub instruction_ok :
    (m : Sim) (ir : ℕ) {n : Next}
    → execute (record m { insns = m.insns + 1 }) ir ((m.pc + 1) % 2 ^ 15) ≡ ok n
    → instruction m ir ≡ ok (finish ir n)
unfolding instruction
instruction_ok m ir e = rw e

reti_resumes :
    (m : Sim)
    → m.nano ≡ false
    → m.sys_tier ≡ true
    → (m' : Sim) × (instruction m reti_s0 ≡ ok m')
      × (m'.pc ≡ m.s 0 / 2 % 2 ^ 15)
      × (m'.ie ≡ 1)
      × (m'.r ≡ m.r)
unfolding finish emit_trace
reti_resumes m n s = (
  finish reti_s0 (record m { insns = m.insns + 1; ie = 1 }, m.s 0 / 2 % 2 ^ 15),
  instruction_ok m reti_s0 (reti_executes (record m { insns = m.insns + 1 }) _ n s),
  ground arith,
  ground arith,
  ground arith,
)

-- If `m₁` is entered from `m`, whose program counter has 15 bits, and a later state `m₂` of a
-- system-tier profile other than Nano has the S0 of `m₁`, interrupts masked, and RETI S0 at its
-- program counter, then a step from `m₂` does not raise: it resumes at the program counter of `m`,
-- with interrupts enabled and the registers of `m₂`.
pub interrupt_return :
    (m m₁ m₂ : Sim)
    → m.pc < 2 ^ 15
    → Enters m m₁
    → m₂.s 0 ≡ m₁.s 0
    → m₂.ie ≡ 0
    → m₂.nano ≡ false
    → m₂.sys_tier ≡ true
    → m₂.mem (m₂.pc % 2 ^ 15) ≡ reti_s0
    → (m₃ : Sim) × (step m₂ ≡ ok m₃) × (m₃.pc ≡ m.pc) × (m₃.ie ≡ 1) × (m₃.r ≡ m₂.r)
interrupt_return m m₁ m₂ h entry s0 ie0 n st w =
    let k = service_uart_keeps m₂ in
    let word : fetch (service_uart m₂) ≡ reti_s0 = cc (k.0, k.3, w) in
    let (m₃, e, p, i, q) = reti_resumes (service_uart m₂) (cc (k.6, n)) (cc (k.6, st)) in
    let addr : (service_uart m₂).s 0 ≡ m.pc * 2 = cc (k.2, s0, entry.saved) in
    (
      m₃,
      step_masked m₂ ie0 ∙ ap (instruction (service_uart m₂)) word ∙ e,
      omega (arith, p, addr),
      i,
      q ∙ k.1,
    )
