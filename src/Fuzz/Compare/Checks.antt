-- ===== src/Fuzz/Compare/Checks.antt =====
-- tools/riscc_fuzz.py: what `compare_trace` and `compare_final_state` check, one line after the other.
use riscc.Prelude.{
  ℕ, ◌+◌, ◌-◌, ◌/◌, Bool, true, false, not, List, [], ◌∷◌, ◌++◌, Option, none, some, ltb, ◌==◌,
  if◌then◌else◌, bit_xor,
}
use riscc.Prelude.Int.{pos, negsuc}
use riscc.Prelude.Lists.{length}
use riscc.Asm.Text.{Text, codes, text_eq}
use riscc.Fuzz.Format.{cat, decimal}
use riscc.Fuzz.Random.{Random}
use riscc.Fuzz.Compare.{Completed}
use riscc.Fuzz.Compare.Output.{memory_lines, marker_cycle}
use riscc.Fuzz.Compare.Args.{irq_args}

-- The first place below both lengths where two lists of lines differ.
unfoldable pub first_difference : ℕ → List Text → List Text → Option (ℕ × Text × Text)
unfolding text_eq
first_difference index [] rtl = none
first_difference index (a ∷ iss) [] = none
first_difference index (a ∷ iss) (b ∷ rtl) =
    let later = first_difference (index + 1) iss rtl in
    if text_eq a b then later else some (index, a, b)

-- `"\n  ISS: %s\n  RTL: %s"`
abbrev pub both_lines : Text → Text → Text
both_lines a b = cat (codes "\n  ISS: " ∷ a ∷ codes "\n  RTL: " ∷ b ∷ [])

-- The line after as many lines as another list has.
abbrev pub next_line : Text → List Text → List Text → Text
next_line start [] rest = []
next_line start (a ∷ lines) [] = start ++ a
next_line start (a ∷ lines) (b ∷ rest) = next_line start lines rest

abbrev pub lengths : Text → List Text → List Text → Text
lengths what iss rtl =
    cat (what ∷ codes " ISS=" ∷ decimal (length iss) ∷ codes " RTL=" ∷ decimal (length rtl) ∷ [])

-- The message on two lists of lines, if they differ: at a place, or in their lengths.
unfoldable pub lines_message : Text → Text → List Text → List Text → Option Text
unfolding first_difference decimal
lines_message at lengths_differ iss rtl = elim (first_difference 0 iss rtl) [
  | some (index, a, b) ↦ some (cat (at ∷ decimal index ∷ both_lines a b ∷ []))
  | none ↦
      if not (length iss == length rtl)
      then some (
          cat (
            lengths lengths_differ iss rtl
            ∷ next_line (codes "\n  next ISS: ") iss rtl
            ∷ next_line (codes "\n  next RTL: ") rtl iss
            ∷ []))
      else none
]

-- The message on two memories, where they differ.
unfoldable pub memory_message : Text → List Text → List Text → Text
unfolding first_difference decimal
memory_message start iss rtl = elim (first_difference 0 iss rtl) [
  | some (index, a, b) ↦ start ++ both_lines a b
  | none ↦ cat (
      start
      ∷ codes " (ISS="
      ∷ decimal (length iss)
      ∷ codes " words RTL="
      ∷ decimal (length rtl)
      ∷ codes " words)"
      ∷ [])
]

-- `iss_mem != rtl_mem`
unfoldable pub lines_eq : List Text → List Text → Bool
unfolding text_eq
lines_eq [] [] = true
lines_eq [] (b ∷ rtl) = false
lines_eq (a ∷ iss) [] = false
lines_eq (a ∷ iss) (b ∷ rtl) = let rest = lines_eq iss rtl in if text_eq a b then rest else false

abbrev pub succeeded : Completed → Bool
succeeded c = elim (c.returncode) [ pos n ↦ n == 0 | negsuc n ↦ false ]

-- What the injection of an interrupt leads to: a message and an output, or the cycle.
pub data Injection : Type 0 where
  failed : Text → Text → Injection
  passed : ℕ → Injection

abbrev pub max : ℕ → ℕ → ℕ
max a b = if ltb a b then b else a

-- `random.Random(seed ^ core_tag ^ 0x1A2B3C4D).randint(low, high)`
abbrev pub irq_cycle : (R : Random) → ℕ → ℕ → ℕ → ℕ → ℕ
irq_cycle R seed tag low high =
    low + (R.randrange (high - low + 1) (R.seed (bit_xor (bit_xor seed tag) 0x1a2b3c4d))).0

-- `"external IRQ final memory mismatch at cycle %d"` and the like.
abbrev at_cycle : Text → ℕ → Text
at_cycle what cycle = cat (what ∷ codes " at cycle " ∷ decimal cycle ∷ [])

-- `message` is the one on a memory that differs, and `more` are arguments of the run.
module _ (R : Random) (run : List Text → Completed) (crc32 : Text → ℕ)
    (message : Text → List Text → List Text → Text) where
  abbrev injected : Text → Text → List Text → Text → List Text → ℕ → Injection
  injected image tb more rtl_output iss_mem cycle =
      let irq = run (irq_args tb image cycle ++ more) in
      let irq_mem = memory_lines irq.stdout in
      if not (succeeded irq)
      then failed (at_cycle (codes "external IRQ failed") cycle) (irq.stdout ++ irq.stderr)
      else if not (lines_eq irq_mem iss_mem)
      then failed
          (message (at_cycle (codes "external IRQ final memory mismatch") cycle) iss_mem irq_mem)
          irq.stdout
      else passed cycle

  abbrev marked : Text → ℕ → Text → Text → List Text → Text → List Text → ℕ → Injection
  marked core seed image tb more rtl_output iss_mem cycle =
      let low = max 5 (cycle / 20) in
      if ltb cycle (low + 1)
      then failed (at_cycle (codes "IRQ body marker is too early") cycle) rtl_output
      else injected image tb more rtl_output iss_mem (irq_cycle R seed (crc32 core) low (cycle - 1))

  -- The part after the self-check, where interrupts are supported.
  unfoldable pub external_irq : Text → ℕ → Text → Text → List Text → Text → List Text → Injection
  unfolding irq_args memory_lines marker_cycle lines_eq decimal
  external_irq core seed image tb more rtl_output iss_mem = elim (marker_cycle rtl_output) [
    | none ↦ failed (codes "RTL did not report the IRQ body marker") rtl_output
    | some cycle ↦ marked core seed image tb more rtl_output iss_mem cycle
  ]
