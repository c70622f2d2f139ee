-- ===== src/Fuzz/Compare/Agreement/Final.antt =====
-- tools/riscc_fuzz.py, `compare_final_state`: it passes exactly when the two runs agree.

use riscc.Prelude.{
  [], ◌∷◌, ℕ, ◌≡◌, ◌↔◌, ap, refl, sym, ◌∙◌, Bool, true, not, List, ◌++◌, arith, if◌then◌else◌,
}
use riscc.Prelude.Result.{Result, ok}
use riscc.Asm.Text.{Text, codes}
use riscc.Fuzz.Random.{Random}
use riscc.Fuzz.Compare.{Completed, CompareError, Verdict}
use riscc.Fuzz.Compare.Output.{memory_lines}
use riscc.Fuzz.Compare.Args.{stall_args}
use riscc.Fuzz.Compare.Checks.{Injection, succeeded}
use riscc.Fuzz.Compare.Same.{lines_eq_iff}
use riscc.Fuzz.Compare.Trace.{refuse, judge_final, compare_final_state}
use riscc.Fuzz.Compare.Args.{interrupt_supported, sim_base_args}
use riscc.Fuzz.Compare.Trace.{final_rtl_args, brief}
use riscc.Fuzz.Compare.Agreement.{
  passes, InterruptAgrees, inject, inject-agrees, agrees-inject, SelfChecked, conclude-passes,
  passes-conclude,
}

-- The tests before the conclusion, passed one after the other.
gate_parts :
    (a b same : Bool) (out rtl_out no_iss no_rtl differs : Text)
    (next : Result CompareError Verdict)
    → passes (
        if not a
        then refuse out rtl_out no_iss
        else if not b
        then refuse out rtl_out no_rtl
        else if not same
        then refuse out rtl_out differs
        else next)
      ≡ true
    → (a ≡ true) × (b ≡ true) × (same ≡ true) × (passes next ≡ true)
gate_parts a b same out rtl_out no_iss no_rtl differs next h = ground arith

parts_gate :
    (a b same : Bool) (out rtl_out no_iss no_rtl differs : Text)
    (next : Result CompareError Verdict)
    → a ≡ true
    → b ≡ true
    → same ≡ true
    → passes next ≡ true
    → passes (
        if not a
        then refuse out rtl_out no_iss
        else if not b
        then refuse out rtl_out no_rtl
        else if not same
        then refuse out rtl_out differs
        else next)
      ≡ true
parts_gate a b same out rtl_out no_iss no_rtl differs next = ground arith

module _ (R : Random) (run : List Text → Completed) (crc32 : Text → ℕ) (fast_iss : Text)
    (core family config : Text) (seed : ℕ) (image tb : Text) where
  abbrev stalled : List Text
  stalled = stall_args seed

  -- The two runs exit well and leave the same memory, the testbench's self-check
  -- passes, and so does the run with an interrupt, where interrupts are supported.
  pub record FinalAgrees (iss rtl : Completed) (irq : Bool) : Type 0 where
    pub iss_exits : succeeded iss ≡ true
    pub rtl_exits : succeeded rtl ≡ true
    pub memories : memory_lines (iss.stdout ++ iss.stderr) ≡ memory_lines rtl.stdout
    pub self_check : SelfChecked rtl
    pub interrupt :
        irq ≡ true
        → InterruptAgrees R run crc32
            (brief R run crc32 fast_iss core family config seed image tb)
            core
            seed
            image
            tb
            stalled
            rtl.stdout
            (memory_lines (iss.stdout ++ iss.stderr))

  abbrev judged : Completed → Completed → Bool → Result CompareError Verdict
  judged iss rtl irq = judge_final R run crc32 fast_iss core family config seed image tb iss rtl irq

  abbrev injection : Completed → Completed → Injection
  injection iss rtl =
      inject R run crc32 (brief R run crc32 fast_iss core family config seed image tb) core seed
        image tb stalled rtl.stdout (memory_lines (iss.stdout ++ iss.stderr))

  judge-agrees :
      (iss rtl : Completed) (irq : Bool)
      → passes (judged iss rtl irq) ≡ true
      → FinalAgrees iss rtl irq
  judge-agrees iss rtl irq h =
      let (iss_exits, rtl_exits, memories, rest) =
        gate_parts (succeeded iss) (succeeded rtl) _ _ _ _ _ _ _ h in
      let (self_check, interrupt) = conclude-passes _ rtl irq (injection iss rtl) rest in
      record {
        iss_exits = iss_exits;
        rtl_exits = rtl_exits;
        memories = (lines_eq_iff _ _).0 memories;
        self_check = self_check;
        interrupt = λ i.
            inject-agrees R run crc32 (brief R run crc32 fast_iss core family config seed image tb)
              core seed image tb stalled _ _ (interrupt i);
      }

  agrees-judge :
      (iss rtl : Completed) (irq : Bool)
      → FinalAgrees iss rtl irq
      → passes (judged iss rtl irq) ≡ true
  agrees-judge iss rtl irq a =
      let (last, last_is, passes_in) = a.self_check in
      let concluded =
        passes-conclude (iss.stdout ++ iss.stderr) rtl irq (injection iss rtl) last last_is
          passes_in
          (λ i.
            agrees-inject R run crc32 (brief R run crc32 fast_iss core family config seed image tb)
              core seed image tb stalled _ _ (a.interrupt i)) in
      parts_gate (succeeded iss) (succeeded rtl) _ _ _ _ _ _ _ a.iss_exits a.rtl_exits
        ((lines_eq_iff _ _).1 a.memories) concluded

  compare_is :
      (args : List Text) (irq : Bool)
      → sim_base_args family config image fast_iss ≡ ok args
      → interrupt_supported family config ≡ ok irq
      → compare_final_state R run crc32 fast_iss core family config seed image tb
        ≡ judged
            (run (args ++ (codes "--dump-written" ∷ [])))
            (run (final_rtl_args R run crc32 fast_iss core family config seed image tb irq))
            irq
  unfolding compare_final_state
  compare_is args irq ea ei = rw (ea, ei) refl

  -- For a configuration of the family, `compare_final_state` passes exactly when the simulator's run and
  -- the core's run agree.
  pub compare_final_state_iff :
      (args : List Text) (irq : Bool)
      → sim_base_args family config image fast_iss ≡ ok args
      → interrupt_supported family config ≡ ok irq
      → (passes (compare_final_state R run crc32 fast_iss core family config seed image tb) ≡ true)
        ↔ FinalAgrees
            (run (args ++ (codes "--dump-written" ∷ [])))
            (run (final_rtl_args R run crc32 fast_iss core family config seed image tb irq))
            irq
  compare_final_state_iff args irq ea ei =
      let same = ap passes (compare_is args irq ea ei) in
      (λ h. judge-agrees _ _ irq (sym same ∙ h), λ a. same ∙ agrees-judge _ _ irq a)
