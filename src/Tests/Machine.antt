-- ===== src/Tests/Machine.antt =====
-- Concrete machines of tools/riscc_sim.py, for the theorems on its steps.
use riscc.Prelude.{
  ℕ, ◌+◌, ◌*◌, ◌^◌, ◌<◌, ◌≡◌, ◌≢◌, ◌⊎◌, inl, refl, true, false, [], ◌∷◌, none, arith, if◌then◌else◌,
  ◌==◌,
}
use riscc.Prelude.Int.{pos, shr_ℤ}
use riscc.Prelude.Result.{ok}
use riscc.Sim.State.{Sim, init, make_profile, service_uart, uart_irq, load_image, sx16}
use riscc.Sim.Memory.{load_word, store_word, stb}
use riscc.Sim.Memory.Bytes.{byte_at}
use riscc.Sim.Memory.Roundtrip.{load_word-store_word, stb_lem}
use riscc.Sim.Alu.{alu, shift_right, funnel_left, funnel_right}
use riscc.Sim.Alu.Shifts.{shift_right_lem, funnels_lem}
use riscc.Sim.Alu.Words.{slt, alu_result, alu-eq-result}
use riscc.Sim.Exec.{exec_imm, exec_mdu}
use riscc.Sim.Exec.Mdu.{mulhu_lem, divu_lem}
use riscc.Sim.Register.{execute}
use riscc.Sim.Register.Alias.{execute_long_space}
use riscc.Sim.Step.{step, take_irq, fetch}
use riscc.Sim.Step.Interrupt.{Enters, take_irq-Enters, reti_s0, interrupt_return}
use riscc.Sim.Step.Entry.{InterruptDue, EntersHandler, step-InterruptDue}
use riscc.Sim.Progress.{Executes, Advances, step-Advances}
use riscc.Sim.Run.{run}
use riscc.Sim.Run.Termination.{run-returns}
use riscc.Sim.Run.Reach.{Reach, here, init-Reach, Explains, run-Explains}
use riscc.Sim.Bounds.Memory.{WellFormed}
use riscc.Sim.Bounds.Step.{StaysWellFormed, step-StaysWellFormed, init-WellFormed}
use riscc.Prelude.Lists.{length, get_or}
use riscc.Sim.Cli.{Arguments, check_arguments, options, check_arguments_lem}
use riscc.Sim.Framebuffer.{pixel, framebuffer_pixels, framebuffer_pixels_lem}
use riscc.Tests.Programs.{sys_options}

-- One instruction, LDI r1, 3, and one byte at the UART.
abbrev machine : Sim
machine = init (0x03 ∷ 0x88 ∷ []) sys_options (0x41 ∷ [])

machine-WellFormed : WellFormed machine
machine-WellFormed =
    init-WellFormed _ sys_options _ (omega arith, (omega arith, tt)) (omega arith, tt)

step-StaysWellFormed_example : StaysWellFormed (step machine)
step-StaysWellFormed_example = step-StaysWellFormed machine machine-WellFormed

-- What a step from the machine leads to.
stepped_to : (m' : Sim) × (step machine ≡ ok m')
unfolding step init exec_imm
stepped_to = (_, refl)

abbrev after_one : Sim
after_one = stepped_to.0

init-Reach_example : WellFormed after_one
init-Reach_example =
    init-Reach (0x03 ∷ 0x88 ∷ []) sys_options (0x41 ∷ []) after_one (omega arith, (omega arith, tt))
      (omega arith, tt) (Reach.after stepped_to.1 (here after_one))

run-returns_example : run (pos 3) none 20000 8 machine ≢ none
unfolding init
run-returns_example = run-returns 3 (omega arith) none 20000 8 machine (omega arith)

run-Explains_example : Explains (pos 3) 8 machine (run (pos 3) none 20000 8 machine)
run-Explains_example = run-Explains (pos 3) 20000 8 machine

step-Advances_example : Advances machine (step machine)
step-Advances_example = step-Advances machine

-- The test interrupt is raised, and interrupts are enabled.
abbrev waiting : Sim
waiting = record machine { ie = 1; irq_line = 1; pc = 7 }

step-InterruptDue_example :
    (InterruptDue waiting × EntersHandler waiting (step waiting))
    ⊎ ((¬ InterruptDue waiting) × Executes waiting (step waiting))
step-InterruptDue_example = step-InterruptDue waiting (omega arith)

entered : (m' : Sim) × (step waiting ≡ ok m') × Enters waiting m'
unfolding step init make_profile service_uart uart_irq
entered = (
  take_irq (service_uart waiting) (fetch (service_uart waiting)),
  refl,
  take_irq-Enters waiting (omega arith),
)

abbrev returning : Sim
returning = record machine { s = λ _. 14; mem = λ _. reti_s0; pc = 2 }

interrupt_return_example :
    (m₃ : Sim) × (step returning ≡ ok m₃) × (m₃.pc ≡ 7) × (m₃.ie ≡ 1) × (m₃.r ≡ returning.r)
unfolding init make_profile
interrupt_return_example =
    interrupt_return waiting entered.0 returning (omega arith) entered.2
      (omega (arith, entered.2.saved)) refl refl refl refl

load_word-store_word_example : (load_word (store_word machine 0x100 0xabcd 3) 0x101).0 ≡ 0xabcd
unfolding init make_profile load_image
load_word-store_word_example =
    load_word-store_word machine 0x100 0x101 0xabcd (omega arith, refl) refl (omega arith)
      (omega arith)

stb_lem_example : byte_at (stb machine 0x101 0x7f) 0x101 ≡ 0x7f
unfolding init make_profile load_image
stb_lem_example = stb_lem machine 0x101 0x7f refl (omega arith) 0x101

alu-eq-result_example : alu machine.profile 2 0xffff 1 ≡ alu_result machine.profile slt 0xffff 1
alu-eq-result_example = alu-eq-result machine.profile slt 0xffff 1 (omega arith) (omega arith)

shift_right_lem_example :
    (shift_right false 3 0xff80 ≡ 0x1ff0)
    × (sx16 (shift_right true 3 0xff80) ≡ shr_ℤ (sx16 0xff80) 3)
shift_right_lem_example = shift_right_lem 3 0xff80 (omega arith)

funnels_lem_example : (funnel_left 0x1234 0x8000 ≡ 0x2469) × (funnel_right 0x8000 0x1234 ≡ 0x4000)
funnels_lem_example = funnels_lem 0x1234 0x8000 (omega arith) (omega arith)

-- r1 = 0x1000, r2 = 0x0300, r0 = 2
abbrev with_mdu : Sim
with_mdu = record machine {
  profile = record (machine.profile) { mdu = true };
  r = λ i. if i == 1 then 0x1000 else if i == 2 then 0x300 else 2;
}

-- MULHU r0, r1, r2
mulhu_lem_example :
    (m' : Sim) × (exec_mdu with_mdu 0xc1a2 9 ≡ ok (m', 9))
    × (m'.r 1 * 2 ^ 16 + m'.r 0 ≡ 0x30_0000)
    × ((j : ℕ) → j ≢ 0 → j ≢ 1 → m'.r j ≡ with_mdu.r j)
mulhu_lem_example = mulhu_lem with_mdu 0xc1a2 9 refl refl (omega arith) (omega arith) (omega arith)

-- DIVU r0, r1, r2
divu_lem_example :
    (m' : Sim) × (exec_mdu with_mdu 0xc182 9 ≡ ok (m', 9))
    × (m'.r 1 * 0x300 + m'.r 0 ≡ 0x2_1000)
    × (m'.r 0 < 0x300)
    × ((j : ℕ) → j ≢ 0 → j ≢ 1 → m'.r j ≡ with_mdu.r j)
divu_lem_example =
    divu_lem with_mdu 0xc182 9 refl refl (omega arith) (omega arith) (omega arith) (omega arith)
      (omega arith)

execute_long_space_example : execute machine 0x0123 5 ≡ execute machine 0xc123 5
execute_long_space_example =
    execute_long_space machine 0x0123 5 (omega arith) (λ e. absurd (omega (arith, e)))

abbrev full_with_mdu : Arguments
full_with_mdu = record {
  min = false;
  full = true;
  mdu = true;
  iflush = false;
  nano = false;
  trace = false;
  uart = false;
}

check_arguments_lem_example :
    ((make_profile (options full_with_mdu)).nano ≡ false)
    × ((make_profile (options full_with_mdu)).full ≡ true)
    × ((make_profile (options full_with_mdu)).mdu ≡ true)
    × ((make_profile (options full_with_mdu)).iflush ≡ false)
    × ((make_profile (options full_with_mdu)).sys_tier ≡ true)
    × ((make_profile (options full_with_mdu)).long_jall ≡ true)
    × ((make_profile (options full_with_mdu)).shifts ≡ true)
unfolding check_arguments
check_arguments_lem_example = check_arguments_lem full_with_mdu refl

-- Word 47 of the picture is the eighth of its second row.
abbrev picture : ℕ → ℕ
picture a = if a == 0x402f then 0xf2e1 else 0

framebuffer_pixels_lem_example :
    (length (framebuffer_pixels picture) ≡ 120)
    × (length (get_or (framebuffer_pixels picture) 1 []) ≡ 160)
    × (pixel (framebuffer_pixels picture) 28 1 ≡ (0x06, 0x11, 0x2b))
    × (pixel (framebuffer_pixels picture) 29 1 ≡ (0xf6, 0xfe, 0xff))
    × (pixel (framebuffer_pixels picture) 30 1 ≡ (0x0a, 0x1f, 0x4d))
    × (pixel (framebuffer_pixels picture) 31 1 ≡ (0xff, 0xff, 0xff))
framebuffer_pixels_lem_example =
    framebuffer_pixels_lem picture 47 1 14 2 15 (omega arith)
      (omega arith, omega arith, omega arith, omega arith) refl

interrupt_waits : InterruptDue waiting
unfolding init make_profile
interrupt_waits = (refl, omega arith, inl (omega arith))
