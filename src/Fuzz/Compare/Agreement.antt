-- ===== src/Fuzz/Compare/Agreement.antt =====
-- tools/riscc_fuzz.py, the end of `compare_trace` and `compare_final_state`: when the self-check and
-- the run with an interrupt pass.
pub mod Trace
pub mod Final
use mathlib.Core.Path.{subst}
use riscc.Prelude.{
  bit_xor, ℕ, ◌+◌, ◌-◌, ◌/◌, ◌<◌, ◌≤◌, ◌≡◌, ◌↔◌, refl, sym, ◌∙◌, Bool, true, false, not, ◌&&◌, List,
  ◌++◌, Option, none, some, arith, Bool-cases, Option-cases, inl, inr, if◌then◌else◌,
}
use riscc.Prelude.Result.{Result, ok, err}
use riscc.Asm.Text.{Text, codes}
use riscc.Fuzz.Format.{contains}
use riscc.Fuzz.Random.{Random}
use riscc.Fuzz.Compare.{Completed, CompareError, Verdict}
use riscc.Fuzz.Compare.Output.{trace_lines, memory_lines, last_line, marker_cycle}
use riscc.Fuzz.Compare.Args.{stalls, irq_args}
use riscc.Fuzz.Compare.Checks.{
  memory_message, lines_message, Injection, failed, passed, succeeded, max, irq_cycle, external_irq,
  lines_eq,
}
use riscc.Fuzz.Compare.Same.{lines_eq_iff, is_none, lines_message_iff}
use riscc.Fuzz.Compare.Trace.{
  refuse, unless_message, conclude, judge_trace, stall_if, compare_trace,
}

abbrev pub passes : Result CompareError Verdict → Bool
passes (err e) = false
passes (ok v) = v.passed

abbrev is_passed : Injection → Bool
is_passed (failed detail output) = false
is_passed (passed cycle) = true

absurd_bool : {P : Type 0} → true ≡ false → P
absurd_bool e = cc

module _ (R : Random) (run : List Text → Completed) (crc32 : Text → ℕ)
    (message : Text → List Text → List Text → Text) (core : Text) (seed : ℕ) (image tb : Text)
    (more : List Text) where
  -- The core was interrupted at a cycle of the body, and left the simulator's memory.
  pub record InterruptAgrees (rtl_output : Text) (iss_mem : List Text) : Type 0 where
    pub marker : ℕ
    pub marker_is : marker_cycle rtl_output ≡ some marker
    pub cycle : ℕ
    pub cycle_is : cycle ≡ irq_cycle R seed (crc32 core) (max 5 (marker / 20)) (marker - 1)
    pub in_body : (5 ≤ cycle) × (marker / 20 ≤ cycle) × (cycle < marker)
    pub exits : succeeded (run (irq_args tb image cycle ++ more)) ≡ true
    pub memory : memory_lines (run (irq_args tb image cycle ++ more)).stdout ≡ iss_mem

  abbrev pub inject : Text → List Text → Injection
  inject rtl_output iss_mem =
      external_irq R run crc32 message core seed image tb more rtl_output iss_mem

  abbrev the_run : ℕ → Completed
  the_run marker =
      run (
        irq_args tb image (irq_cycle R seed (crc32 core) (max 5 (marker / 20)) (marker - 1))
        ++ more)

  inject_parts :
      (rtl_output : Text) (iss_mem : List Text) (marker : ℕ)
      → marker_cycle rtl_output ≡ some marker
      → is_passed (inject rtl_output iss_mem) ≡ true
      → (max 5 (marker / 20) < marker)
        × (succeeded (the_run marker) ≡ true)
        × (lines_eq (memory_lines (the_run marker).stdout) iss_mem ≡ true)
  unfolding external_irq
  inject_parts rtl_output iss_mem marker e h = ground arith

  cycle_in_body :
      (marker : ℕ)
      → max 5 (marker / 20) < marker
      → (5 ≤ irq_cycle R seed (crc32 core) (max 5 (marker / 20)) (marker - 1))
        × (marker / 20 ≤ irq_cycle R seed (crc32 core) (max 5 (marker / 20)) (marker - 1))
        × (irq_cycle R seed (crc32 core) (max 5 (marker / 20)) (marker - 1) < marker)
  cycle_in_body marker h =
      let low = max 5 (marker / 20) in
      let drawn =
        R.randrange-lt (marker - 1 - low + 1)
          (R.seed (bit_xor (bit_xor seed (crc32 core)) 0x1a2b3c4d)) (omega (arith, h)) in
      ground (arith, h, drawn)

  no_marker :
      (rtl_output : Text) (iss_mem : List Text)
      → marker_cycle rtl_output ≡ none
      → is_passed (inject rtl_output iss_mem) ≡ false
  unfolding external_irq
  no_marker rtl_output iss_mem e = ground arith

  pub inject-agrees :
      (rtl_output : Text) (iss_mem : List Text)
      → is_passed (inject rtl_output iss_mem) ≡ true
      → InterruptAgrees rtl_output iss_mem
  inject-agrees rtl_output iss_mem h = elim (Option-cases (marker_cycle rtl_output)) [
    | inl e ↦ absurd_bool (sym h ∙ no_marker rtl_output iss_mem e)
    | inr (marker, e) ↦
        let (early, exits, memory) = inject_parts rtl_output iss_mem marker e h in
        record {
          marker = marker;
          marker_is = e;
          cycle = _;
          cycle_is = refl;
          in_body = cycle_in_body marker early;
          exits = exits;
          memory = (lines_eq_iff _ _).0 memory;
        }
  ]

  pub agrees-inject :
      (rtl_output : Text) (iss_mem : List Text)
      → InterruptAgrees rtl_output iss_mem
      → is_passed (inject rtl_output iss_mem) ≡ true
  unfolding external_irq
  agrees-inject rtl_output iss_mem a =
      let early : max 5 (a.marker / 20) < a.marker = ground (arith, a.in_body) in
      let exits : succeeded (the_run (a.marker)) ≡ true = rw (sym (a.cycle_is)) (a.exits) in
      let memory : memory_lines (the_run (a.marker)).stdout ≡ iss_mem =
        subst (λ c. memory_lines (run (irq_args tb image c ++ more)).stdout ≡ iss_mem) a.cycle_is
          a.memory in
      let same = (lines_eq_iff _ _).1 memory in ground (arith, early, exits, same, a.marker_is)

-- The self-check that the testbench reported.
abbrev pub SelfChecked : Completed → Type 0
SelfChecked rtl =
    (last : Text) × (last_line rtl.stdout ≡ ok last) × (contains (codes "PASS") last ≡ true)

pub conclude-passes :
    (iss_output : Text) (rtl : Completed) (irq : Bool) (injection : Injection)
    → passes (conclude iss_output rtl irq injection) ≡ true
    → SelfChecked rtl × (irq ≡ true → is_passed injection ≡ true)
conclude-passes iss_output rtl irq injection h = ground arith

pub passes-conclude :
    (iss_output : Text) (rtl : Completed) (irq : Bool) (injection : Injection) (last : Text)
    → last_line rtl.stdout ≡ ok last
    → contains (codes "PASS") last ≡ true
    → (irq ≡ true → is_passed injection ≡ true)
    → passes (conclude iss_output rtl irq injection) ≡ true
passes-conclude iss_output rtl true (passed n) last e c i = ground arith
passes-conclude iss_output rtl true (failed d o) last e c i = absurd_bool (sym (i refl))
passes-conclude iss_output rtl false injection last e c i = ground arith
