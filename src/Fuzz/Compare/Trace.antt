-- ===== src/Fuzz/Compare/Trace.antt =====
-- tools/riscc_fuzz.py, `compare_trace` and `compare_final_state`.
use riscc.Prelude.{
  ℕ, Bool, true, false, not, List, [], ◌∷◌, ◌++◌, Option, none, some, if◌then◌else◌,
}
use riscc.Prelude.Result.{Result, ok, ◌>>=◌}
use riscc.Asm.Text.{Text, codes}
use riscc.Fuzz.Format.{cat, decimal, contains}
use riscc.Fuzz.Random.{Random}
use riscc.Fuzz.Compare.{Completed, CompareError, Verdict}
use riscc.Fuzz.Compare.Output.{trace_lines, memory_lines, last_line}
use riscc.Fuzz.Compare.Args.{
  interrupt_supported, sim_base_args, sim_trace_args, report_args, stall_args, stalls, limit_args,
}
use riscc.Fuzz.Compare.Checks.{
  lines_message, memory_message, lines_eq, succeeded, Injection, failed, passed, external_irq,
}

-- The tuples `False, detail, iss_output, output` and `True, detail, iss_output, output`.
abbrev pub refuse : Text → Text → Text → Result CompareError Verdict
refuse iss_output output detail =
    ok (record { passed = false; detail = detail; iss_output = iss_output; rtl_output = output })

abbrev pub accept : Text → Text → Text → Result CompareError Verdict
accept iss_output output detail =
    ok (record { passed = true; detail = detail; iss_output = iss_output; rtl_output = output })

-- `if message is not None: return False, message, ...`
abbrev pub unless_message :
    Text → Text → Option Text → Result CompareError Verdict → Result CompareError Verdict
unless_message iss_output output (some detail) next = refuse iss_output output detail
unless_message iss_output output none next = next

abbrev pub after_injection : Text → Text → Injection → Result CompareError Verdict
after_injection iss_output output (failed detail irq_output) = refuse iss_output irq_output detail
after_injection iss_output output (passed cycle) =
    accept iss_output output (cat (codes "PASS external IRQ at cycle " ∷ decimal cycle ∷ []))

-- The end of both comparisons: the self-check, and the interrupt where there is one.
abbrev pub conclude : Text → Completed → Bool → Injection → Result CompareError Verdict
conclude iss_output rtl irq injection = last_line (rtl.stdout) >>= λ last.
    if not (contains (codes "PASS") last)
    then refuse iss_output rtl.stdout (codes "RTL self-check failed: " ++ last)
    else if irq
    then after_injection iss_output rtl.stdout injection
    else accept iss_output rtl.stdout (codes "PASS")

module _ (R : Random) (run : List Text → Completed) (crc32 : Text → ℕ) (fast_iss : Text)
    (core family config : Text) (seed : ℕ) (image tb : Text) where
  -- `["--mem-stall-seed", str(seed)]`, for the families that have it.
  abbrev pub stall_if : Bool → List Text
  stall_if present = if present then stall_args seed else []

  abbrev pub trace_rtl_args : Bool → List Text
  trace_rtl_args irq =
      tb
      ∷ image
      ∷ codes "--trace"
      ∷ codes "--dump-written"
      ∷ (limit_args ++ (report_args irq ++ stall_if (stalls family)))

  abbrev trace_message : Completed → Completed → Option Text
  trace_message iss rtl =
      lines_message (codes "trace mismatch at step ") (codes "trace length mismatch")
        (trace_lines (iss.stdout ++ iss.stderr)) (trace_lines rtl.stdout)

  abbrev written_message : Completed → Completed → Option Text
  written_message iss rtl =
      lines_message (codes "final memory mismatch at written word ")
        (codes "written-memory length mismatch") (memory_lines (iss.stdout ++ iss.stderr))
        (memory_lines rtl.stdout)

  abbrev pub judge_trace : Completed → Completed → Bool → Result CompareError Verdict
  judge_trace iss rtl irq =
      let iss_output = iss.stdout ++ iss.stderr in
      if not (succeeded iss)
      then refuse iss_output rtl.stdout (codes "ISS trace failed")
      else if not (succeeded rtl)
      then refuse iss_output rtl.stdout (codes "RTL trace failed")
      else unless_message iss_output rtl.stdout (trace_message iss rtl) (
          unless_message iss_output rtl.stdout (written_message iss rtl) (
            conclude iss_output rtl irq (
              external_irq R run crc32 memory_message core seed image tb (stall_if (stalls family))
                rtl.stdout (memory_lines iss_output))))

  unfoldable pub compare_trace : Result CompareError Verdict
  unfolding interrupt_supported sim_trace_args report_args stall_args stalls trace_lines
      memory_lines last_line lines_message memory_message external_irq contains decimal
  compare_trace = do
    args ← sim_trace_args family config image fast_iss
    irq ← interrupt_supported family config
    judge_trace (run args) (run (trace_rtl_args irq)) irq

  abbrev pub final_rtl_args : Bool → List Text
  final_rtl_args irq =
      tb ∷ image ∷ codes "--dump-written" ∷ (limit_args ++ (stall_args seed ++ report_args irq))

  -- The message on the memory after an interrupt says no more than where.
  abbrev pub brief : Text → List Text → List Text → Text
  brief start iss rtl = start

  abbrev pub judge_final : Completed → Completed → Bool → Result CompareError Verdict
  judge_final iss rtl irq =
      let iss_output = iss.stdout ++ iss.stderr in
      let iss_mem = memory_lines iss_output in
      if not (succeeded iss)
      then refuse iss_output rtl.stdout (codes "ISS final-state run failed")
      else if not (succeeded rtl)
      then refuse iss_output rtl.stdout (codes "RTL final-state run failed")
      else if not (lines_eq iss_mem (memory_lines rtl.stdout))
      then refuse iss_output rtl.stdout
          (memory_message (codes "final memory mismatch") iss_mem (memory_lines rtl.stdout))
      else conclude iss_output rtl irq
          (external_irq R run crc32 brief core seed image tb (stall_args seed) rtl.stdout iss_mem)

  unfoldable pub compare_final_state : Result CompareError Verdict
  unfolding interrupt_supported sim_base_args report_args stall_args memory_lines last_line lines_eq
      memory_message external_irq contains decimal
  compare_final_state = do
    args ← sim_base_args family config image fast_iss
    irq ← interrupt_supported family config
    judge_final (run (args ++ (codes "--dump-written" ∷ []))) (run (final_rtl_args irq)) irq
