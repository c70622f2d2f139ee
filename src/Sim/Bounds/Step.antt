-- ===== src/Sim/Bounds/Step.antt =====
-- tools/riscc_sim.py: a step keeps the state well-formed, from the constructor on.
use riscc.Prelude.{ℕ, ◌+◌, ◌*◌, ◌<◌, refl, arith, if_both, zero, suc, ltb, ◌&&◌, List, [], ◌∷◌}
use riscc.Prelude.Bits.{bit_or-lt}
use riscc.Prelude.Lists.{get_or, length}
use riscc.Prelude.Result.{Result, ok, err, ◌>>=◌}
use riscc.Sim.State.{Sim, Options, init, load_image, service_uart}
use riscc.Sim.Alu.{Undefined}
use riscc.Sim.Exec.{Next}
use riscc.Sim.Step.{emit_trace, irq_pending, take_irq, finish, instruction, fetch, step}
use riscc.Sim.Bounds.Values.{IsWord, AreBytes, update-AreWords}
use riscc.Sim.Bounds.Memory.{WellFormed, service_uart-WellFormed}
use riscc.Sim.Bounds.Handlers.{Keeps}
use riscc.Sim.Bounds.Register.{execute-Keeps}

abbrev pub StaysWellFormed : Result Undefined Sim → Type 0
StaysWellFormed (ok m) = WellFormed m
StaysWellFormed (err e) = Unit

emit_trace-WellFormed : (m : Sim) (ir : ℕ) → WellFormed m → WellFormed (emit_trace m ir)
unfolding emit_trace
emit_trace-WellFormed m ir w = if_both WellFormed m.trace w w

take_irq-WellFormed : (m : Sim) (ir : ℕ) → WellFormed m → WellFormed (take_irq m ir)
unfolding take_irq
take_irq-WellFormed m ir w =
    emit_trace-WellFormed _ ir
      (w.0, w.1, update-AreWords 0 _ w.2 (omega arith), (omega arith, omega arith, w.3.2), w.4)

finish-WellFormed :
    (ir : ℕ) (next : Result Undefined Next)
    → Keeps next
    → StaysWellFormed (next >>= λ n. ok (finish ir n))
unfolding finish
finish-WellFormed ir (ok (m, pc_next)) (w, h) =
    emit_trace-WellFormed _ ir (w.0, w.1, w.2, (h, w.3.1, w.3.2), w.4)
finish-WellFormed ir (err e) h = tt

instruction-StaysWellFormed : (m : Sim) (ir : ℕ) → WellFormed m → StaysWellFormed (instruction m ir)
unfolding instruction
instruction-StaysWellFormed m ir w =
    finish-WellFormed ir _ (execute-Keeps (record m { insns = m.insns + 1 }) ir _ w (omega arith))

-- One step from a well-formed state, if it does not raise, ends in a well-formed state: the words
-- of the memory, the registers and the S-registers fit 16 bits, the program counter 15, the two
-- interrupt flags one, the UART holds bytes, its overflow flag is clear, its transmitter ready.
pub step-StaysWellFormed : (m : Sim) → WellFormed m → StaysWellFormed (step m)
unfolding step
step-StaysWellFormed m₀ w₀ =
    let m = service_uart m₀ in
    let w : WellFormed m = service_uart-WellFormed m₀ w₀ in
    if_both StaysWellFormed (irq_pending m) (take_irq-WellFormed m (fetch m) w)
      (instruction-StaysWellFormed m (fetch m) w)

get_or-lt : (bs : List ℕ) (i : ℕ) → AreBytes bs → get_or bs i 0 < 256
get_or-lt [] i h = omega arith
get_or-lt (b ∷ bs) zero h = h.0
get_or-lt (b ∷ bs) (suc i) h = get_or-lt bs i h.1

-- The constructor makes a well-formed state of any image of bytes and any UART input of bytes.
pub init-WellFormed :
    (image : List ℕ) (o : Options) (uart_in : List ℕ)
    → AreBytes image
    → AreBytes uart_in
    → WellFormed (init image o uart_in)
unfolding init load_image
init-WellFormed image o uart_in hi hu = (
  λ w.
      if_both IsWord (ltb (2 * w) (length image) && ltb (2 * w) 0x1_0000)
        (bit_or-lt 16 _ _ (omega (arith, get_or-lt image (2 * w) hi))
          (omega (arith, get_or-lt image (2 * w + 1) hi)))
        (omega arith),
  λ i. omega arith,
  λ i. omega arith,
  omega arith,
  (hu, tt, omega arith, omega arith, refl, refl),
)
