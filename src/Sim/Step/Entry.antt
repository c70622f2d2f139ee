-- ===== src/Sim/Step/Entry.antt =====
-- tools/riscc_sim.py, `Sim.step`: when a step is an interrupt entry, said of the state before it.
use riscc.Prelude.{
  ℕ, ◌+◌, ◌/◌, ◌%◌, ◌^◌, ◌<◌, ◌≡◌, ◌≢◌, ◌⊎◌, ◌↔◌, inl, inr, refl, sym, ◌∙◌, Bool, true, false, not,
  ◌&&◌, ◌||◌, ◌==◌, List, [], ◌∷◌, arith, Bool-cases,
}
use riscc.Prelude.Bits.{bit_and_split, bit_and_mask, bit_and-zero}
use riscc.Prelude.Result.{Result, ok, err}
use riscc.Sim.State.{Sim, has_bits, service_uart, uart_irq, receive}
use riscc.Sim.Alu.{Undefined}
use riscc.Sim.Progress.{Executes, instruction-Executes}
use riscc.Sim.Step.{emit_trace, irq_pending, take_irq, fetch, step}
use riscc.Sim.Step.Interrupt.{Enters, take_irq-Enters}

-- The UART asks for service: a byte has come, or waits to be taken, and the lowest bit of its enables is
-- set, or it can send, and the next bit is set.
abbrev pub UartDue : Sim → Type 0
UartDue m =
    (m.uart ≡ true)
    × (((m.uart_irq_en % 2 ≡ 1) × ((m.uart_rx_ready ≡ true) ⊎ (m.uart_in ≢ [])))
        ⊎ ((m.uart_irq_en / 2 % 2 ≡ 1) × (m.uart_tx_ready ≡ true)))

-- An interrupt is due in a profile of the system tier, with interrupts enabled, and the test interrupt
-- raised or the UART asking for service.
abbrev pub InterruptDue : Sim → Type 0
InterruptDue m = (m.sys_tier ≡ true) × (0 < m.ie) × ((0 < m.irq_line) ⊎ UartDue m)

low_bit : (n : ℕ) → has_bits n 1 ≡ (n % 2 == 1)
low_bit n = ground (arith, bit_and_mask 1 n)

next_bit : (n : ℕ) → has_bits n 2 ≡ (n / 2 % 2 == 1)
next_bit n = ground (arith, bit_and_split 1 n 2, bit_and_mask 1 (n / 2), bit_and-zero (n % 2))

abbrev some_in : List ℕ → Bool
some_in [] = false
some_in (b ∷ rest) = true

some_in_iff : (bytes : List ℕ) → (some_in bytes ≡ true) ↔ (bytes ≢ [])
some_in_iff [] = (λ h. cc, λ h. absurd (h refl))
some_in_iff (b ∷ rest) = (λ h e. cc, λ h. refl)

-- The test, said of the state before the UART is serviced.
pending : Sim → Bool
pending m =
    m.sys_tier
    && not (m.ie == 0)
    && (not (m.irq_line == 0)
        || m.uart
          && ((m.uart_irq_en % 2 == 1) && (m.uart_rx_ready || some_in m.uart_in)
              || (m.uart_irq_en / 2 % 2 == 1) && m.uart_tx_ready))

receive_ready :
    (m : Sim) (bytes : List ℕ)
    → m.uart_in ≡ bytes
    → (receive m.port bytes).uart_rx_ready ≡ (m.uart_rx_ready || some_in bytes)
receive_ready m [] e = ground arith
receive_ready m (b ∷ rest) e = ground arith

service_uart_ready :
    (m : Sim)
    → m.uart ≡ true
    → (service_uart m).uart_rx_ready ≡ (m.uart_rx_ready || some_in m.uart_in)
unfolding service_uart
service_uart_ready m h = rw h (receive_ready m m.uart_in refl)

receive_others :
    (m : Sim) (bytes : List ℕ)
    → ((receive m.port bytes).uart_irq_en ≡ m.uart_irq_en)
      × ((receive m.port bytes).uart_tx_ready ≡ m.uart_tx_ready)
receive_others m [] = (refl, refl)
receive_others m (b ∷ rest) = ground arith

service_uart_others :
    (m : Sim)
    → ((service_uart m).profile ≡ m.profile)
      × ((service_uart m).ie ≡ m.ie)
      × ((service_uart m).irq_line ≡ m.irq_line)
      × ((service_uart m).uart_irq_en ≡ m.uart_irq_en)
      × ((service_uart m).uart_tx_ready ≡ m.uart_tx_ready)
unfolding service_uart
service_uart_others m = ground (arith, receive_others m m.uart_in)

irq_pending-serviced : (m : Sim) → irq_pending (service_uart m) ≡ pending m
unfolding uart_irq pending
irq_pending-serviced m =
    let (profile, ie, line, enables, tx) = service_uart_others m in
    elim (Bool-cases m.uart) [
      | inl e ↦
          rw
            (
              profile,
              ie,
              line,
              enables,
              tx,
              low_bit m.uart_irq_en,
              next_bit m.uart_irq_en,
              service_uart_ready m e,
            )
            refl
      | inr e ↦ rw (profile, ie, line, e) refl
    ]

or_right : (p q : Bool) → p ≡ false → (p || q) ≡ true → q ≡ true
or_right p q e h = ground arith

pending-InterruptDue : (m : Sim) → pending m ≡ true → InterruptDue m
unfolding pending
pending-InterruptDue m h =
    let parts : (m.sys_tier ≡ true) × (0 < m.ie) = ground arith in
    (
      parts.0,
      parts.1,
      elim (Bool-cases (m.irq_line == 0)) [
        | inr raised ↦ inl (ground arith)
        | inl idle ↦
            let uart : m.uart ≡ true = ground arith in
            let some_test : ((m.uart_irq_en % 2 ≡ 1)
                  × ((m.uart_rx_ready || some_in m.uart_in) ≡ true))
                ⊎ ((m.uart_irq_en / 2 % 2 ≡ 1) × (m.uart_tx_ready ≡ true)) =
              ground arith in
            inr (
              uart,
              elim some_test [
                | inr sends ↦ inr sends
                | inl (enabled, comes) ↦ inl (
                  enabled,
                  elim (Bool-cases m.uart_rx_ready) [
                    | inl ready ↦ inl ready
                    | inr empty ↦
                        inr ((some_in_iff m.uart_in).0 (or_right m.uart_rx_ready _ empty comes))
                  ],
                )
              ],
            )
      ],
    )

InterruptDue-pending : (m : Sim) → InterruptDue m → pending m ≡ true
unfolding pending
InterruptDue-pending m (tier, enabled, inl raised) = ground arith
InterruptDue-pending m (tier, enabled, inr (uart, inr sends)) = ground arith
InterruptDue-pending m (tier, enabled, inr (uart, inl (e, inl ready))) = ground arith
InterruptDue-pending m (tier, enabled, inr (uart, inl (e, inr comes))) =
    ground (arith, (some_in_iff m.uart_in).1 comes)

-- An entry, which counts an interrupt and no instruction.
abbrev pub EntersHandler : Sim → Result Undefined Sim → Type 0
EntersHandler m (err e) = ⊥
EntersHandler m (ok m') = Enters m m' × (m'.irq_taken ≡ m.irq_taken + 1) × (m'.insns ≡ m.insns)

counts_entry :
    (m : Sim)
    → ((take_irq (service_uart m) (fetch (service_uart m))).irq_taken ≡ m.irq_taken + 1)
      × ((take_irq (service_uart m) (fetch (service_uart m))).insns ≡ m.insns)
unfolding take_irq service_uart emit_trace
counts_entry m = ground arith

step-EntersHandler :
    (m : Sim) → m.pc < 2 ^ 15 → irq_pending (service_uart m) ≡ true → EntersHandler m (step m)
unfolding step
step-EntersHandler m h p =
    let entry : Enters m (take_irq (service_uart m) (fetch (service_uart m))) =
      take_irq-Enters m h in
    let counts = counts_entry m in rw p (entry, counts.0, counts.1)

serviced-Executes :
    (m : Sim) (res : Result Undefined Sim) → Executes (service_uart m) res → Executes m res
unfolding service_uart
serviced-Executes m (ok m') h = ground arith
serviced-Executes m (err e) h = tt

not_due : (m : Sim) → pending m ≡ false → ¬ InterruptDue m
not_due m e due = let holds = InterruptDue-pending m due in cc

step-Executes : (m : Sim) → irq_pending (service_uart m) ≡ false → Executes m (step m)
unfolding step
step-Executes m p =
    rw p (serviced-Executes m _ (instruction-Executes (service_uart m) (fetch (service_uart m))))

-- From a program counter of 15 bits, a step enters the handler if an interrupt is due, and does not
-- raise; if none is due it executes one instruction, or raises.
pub step-InterruptDue :
    (m : Sim)
    → m.pc < 2 ^ 15
    → (InterruptDue m × EntersHandler m (step m)) ⊎ ((¬ InterruptDue m) × Executes m (step m))
step-InterruptDue m h = elim (Bool-cases (irq_pending (service_uart m))) [
  | inl p ↦
      inl (pending-InterruptDue m (sym (irq_pending-serviced m) ∙ p), step-EntersHandler m h p)
  | inr p ↦ inr (not_due m (sym (irq_pending-serviced m) ∙ p), step-Executes m p)
]
