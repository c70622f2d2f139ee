-- ===== src/Fuzz/Compare/Args.antt =====
-- tools/riscc_fuzz.py: the command lines of the runs that are compared.
use riscc.Prelude.{ℕ, Bool, false, not, ◌||◌, List, [], ◌∷◌, ◌++◌, if◌then◌else◌}
use riscc.Prelude.Result.{Result, ok, err, ◌>>=◌}
use riscc.Asm.Text.{Text, codes, text_eq}
use riscc.Fuzz.Format.{decimal, hex4, hex_padded, contains}
use riscc.Fuzz.Config.{Config, parse_config, irq_marker}
use riscc.Fuzz.Compare.{CompareError, config_error}

abbrev pub parsed : Text → Result CompareError Config
parsed config = elim (parse_config config) [ ok c ↦ ok c | err e ↦ err (config_error e) ]

unfoldable pub interrupt_supported : Text → Text → Result CompareError Bool
unfolding text_eq parse_config
interrupt_supported family config =
    if text_eq family (codes "rc32")
    then ok (not (text_eq config (codes "min")))
    else if text_eq family (codes "rc16") || text_eq family (codes "fast")
    then (parsed config >>= λ c. ok c.sys)
    else ok false

-- `fast_iss` is the path of the simulator's executable.
unfoldable pub sim_base_args : Text → Text → Text → Text → Result CompareError (List Text)
unfolding text_eq parse_config contains
sim_base_args family config image fast_iss =
    if text_eq family (codes "rc32")
    then ok (
        fast_iss
        ∷ image
        ∷ (if text_eq config (codes "min")
            then codes "--rc32"
            else if text_eq config (codes "sys")
            then codes "--rc32-sys"
            else codes "--rc32-full")
        ∷ (if contains (codes "-") config then codes "--mdu" ∷ [] else []))
    else if text_eq family (codes "nano")
    then ok (fast_iss ∷ image ∷ codes "--nano" ∷ [])
    else parsed config >>= λ c. ok (
        fast_iss
        ∷ image
        ∷ ((if c.sys then [] else codes "--min" ∷ [])
            ++ ((if c.full then codes "--full" ∷ [] else [])
                ++ (if c.mdu then codes "--mdu" ∷ [] else []))))

unfoldable pub sim_trace_args : Text → Text → Text → Text → Result CompareError (List Text)
unfolding sim_base_args
sim_trace_args family config image fast_iss = sim_base_args family config image fast_iss >>= λ args.
    ok (args ++ (codes "--trace" ∷ codes "--dump-written" ∷ []))

-- `["--report-write", "0x%04X" % IRQ_MARKER]`, where interrupts are injected.
unfoldable pub report_args : Bool → List Text
unfolding hex_padded
report_args irq = if irq then codes "--report-write" ∷ (codes "0x" ++ hex4 irq_marker) ∷ [] else []

unfoldable pub stall_args : ℕ → List Text
unfolding decimal
stall_args seed = codes "--mem-stall-seed" ∷ decimal seed ∷ []

-- `family in ("rc16", "rc32", "nano")`
unfoldable pub stalls : Text → Bool
unfolding text_eq
stalls family =
    text_eq family (codes "rc16") || text_eq family (codes "rc32") || text_eq family (codes "nano")

abbrev pub limit_args : List Text
limit_args = codes "--max-cycles" ∷ codes "400000" ∷ []

-- The arguments of the run with an interrupt at a cycle.
unfoldable pub irq_args : Text → Text → ℕ → List Text
unfolding decimal
irq_args tb image cycle =
    tb ∷ image ∷ codes "--dump-written" ∷ (limit_args ++ (codes "--irq-at" ∷ decimal cycle ∷ []))
