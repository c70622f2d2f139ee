-- ===== src/Sim/Progress.antt =====
-- tools/riscc_sim.py: what one step counts. An interrupt entry counts no instruction and masks
-- interrupts; every other step counts one.
use riscc.Prelude.{ℕ, ◌+◌, ◌<◌, ◌≡◌, ◌⊎◌, inl, inr, true, false, arith, Bool-cases}
use riscc.Prelude.Result.{Result, ok, err, ◌>>=◌}
use riscc.Sim.State.{Sim, service_uart}
use riscc.Sim.Alu.{Undefined}
use riscc.Sim.Exec.{Next}
use riscc.Sim.Step.{emit_trace, irq_pending, take_irq, finish, instruction, fetch, step}
use riscc.Sim.Frame.{Leaves, execute-Leaves}

abbrev pub Counts : Sim → Sim → Type 0
Counts m m' =
    ((m'.insns ≡ m.insns + 1) × (m'.irq_taken ≡ m.irq_taken))
    ⊎ ((m'.insns ≡ m.insns) × (m'.irq_taken ≡ m.irq_taken + 1) × (0 < m.ie) × (m'.ie ≡ 0))

abbrev pub Advances : Sim → Result Undefined Sim → Type 0
Advances m (ok m') = (m'.profile ≡ m.profile) × Counts m m'
Advances m (err e) = Unit

-- An instruction counts itself and no interrupt, if it does not raise.
abbrev pub Executes : Sim → Result Undefined Sim → Type 0
Executes m (ok m') =
    (m'.profile ≡ m.profile) × (m'.insns ≡ m.insns + 1) × (m'.irq_taken ≡ m.irq_taken)
Executes m (err e) = Unit

finish-Executes :
    (m : Sim) (ir : ℕ) (next : Result Undefined Next)
    → Leaves (record m { insns = m.insns + 1 }) next
    → Executes m (next >>= λ n. ok (finish ir n))
unfolding finish emit_trace
finish-Executes m ir (ok (m', pc_next)) h = ground arith
finish-Executes m ir (err e) h = tt

pub instruction-Executes : (m : Sim) (ir : ℕ) → Executes m (instruction m ir)
unfolding instruction
instruction-Executes m ir = finish-Executes m ir _ (execute-Leaves _ ir _)

Executes-Advances : (m : Sim) (res : Result Undefined Sim) → Executes m res → Advances m res
Executes-Advances m (ok m') (profile, insns, irqs) = (profile, inl (insns, irqs))
Executes-Advances m (err e) h = tt

instruction-Advances : (m : Sim) (ir : ℕ) → Advances m (instruction m ir)
instruction-Advances m ir = Executes-Advances m (instruction m ir) (instruction-Executes m ir)

take_irq-Advances : (m : Sim) (ir : ℕ) → irq_pending m ≡ true → Advances m (ok (take_irq m ir))
unfolding take_irq emit_trace
take_irq-Advances m ir h = ground arith

serviced : (m : Sim) (res : Result Undefined Sim) → Advances (service_uart m) res → Advances m res
unfolding service_uart
serviced m (ok m') h = ground arith
serviced m (err e) h = tt

-- A step, if it does not raise, keeps the options, and either counts one instruction and no
-- interrupt, or counts one interrupt and no instruction; the second only happens with interrupts
-- enabled, and leaves them disabled.
pub step-Advances : (m : Sim) → Advances m (step m)
unfolding step
step-Advances m₀ = serviced m₀ _ (taken (Bool-cases (irq_pending m)))
  where
    m : Sim
    m = service_uart m₀

    taken : (irq_pending m ≡ true) ⊎ (irq_pending m ≡ false) → Advances m (step m₀)
    taken (inl p) = rw p (take_irq-Advances m (fetch m) p)
    taken (inr p) = rw p (instruction-Advances m (fetch m))
