-- ===== src/Fuzz/Campaign.antt =====
-- tools/riscc_fuzz.py, `main`: the choice of configurations and cores, and the count of a campaign.
-- `make_case` and `build_tb`, which drive external tools, are parameters, and E is what they raise. The
-- pool of threads hands out its results in the order of its inputs. The seeds are not negative.
pub mod Stages
pub mod Counts
pub mod Exit
use riscc.Prelude.{
  ℕ, zero, suc, ◌+◌, Bool, true, false, not, ◌&&◌, ◌||◌, List, [], ◌∷◌, ◌++◌, Option, none, some,
  ltb, ◌==◌, if◌then◌else◌,
}
use riscc.Prelude.Int.{ℤ, pos, negsuc, ltb_ℤ}
use riscc.Prelude.Result.{Result, ok, err, ◌>>=◌, raise_if, ◌>>◌}
use riscc.Asm.Text.{Text, codes, text_eq, is_empty}
use riscc.Asm.Preprocess.{member}
use riscc.Fuzz.Format.{is_prefix}
use riscc.Fuzz.Config.{rc16_configs}
use riscc.Fuzz.Random.{Random}
use riscc.Fuzz.Compare.{Completed, CompareError, Verdict}
use riscc.Fuzz.Compare.Trace.{compare_trace, compare_final_state}

pub record Arguments : Type 0 where
  pub seed : Option ℕ
  pub campaign : Option ℤ
  pub base_seed : Option ℕ
  pub random_seed : Bool
  pub family : Text
  pub config : Option Text
  pub cores : Option Text
  pub jobs : ℤ

pub data UsageError : Type 0 where
  config_choice mdu_cores both_seeds jobs_positive campaign_positive need_seed seed_config :
      UsageError

abbrev rc32_configs : List Text
rc32_configs = codes "min" ∷ codes "sys" ∷ codes "full" ∷ []

abbrev pub default_configs : Text → List Text
default_configs family =
    if text_eq family (codes "nano")
    then codes "nano" ∷ []
    else if text_eq family (codes "rc32")
    then rc32_configs
    else if text_eq family (codes "fast")
    then codes "full" ∷ []
    else rc16_configs

abbrev pub valid_configs : Text → List Text
valid_configs family =
    if text_eq family (codes "rc32") then rc16_configs else default_configs family

-- The first of the parts of a text between commas, with the other parts.
abbrev pub split_commas : Text → Text × List Text
split_commas [] = ([], [])
split_commas (c ∷ t) =
    let (part, parts) = split_commas t in
    if c == b',' then ([], part ∷ parts) else (c ∷ part, parts)

-- `args.cores.split(",") if args.cores else None`
unfoldable pub requested_cores : Option Text → Option (List Text)
requested_cores none = none
requested_cores (some cores) =
    let (part, parts) = split_commas cores in if is_empty cores then none else some (part ∷ parts)

abbrev pub is_none_or_in : List Text → Option Text → Bool
is_none_or_in names none = true
is_none_or_in names (some name) = member name names

abbrev only_wide32 : Option (List Text) → Bool
only_wide32 none = false
only_wide32 (some []) = false
only_wide32 (some (core ∷ [])) = text_eq core (codes "wide32")
only_wide32 (some (core ∷ next ∷ cores)) = false

abbrev below_one : Option ℤ → Bool
below_one none = false
below_one (some n) = ltb_ℤ n (pos 1)

abbrev is_given {ℓ} : {A : Type ℓ} → Option A → Bool
is_given none = false
is_given (some a) = true

unfoldable pub check_arguments : Arguments → Result UsageError (Unit {0})
unfolding member text_eq requested_cores
check_arguments a = do
  raise_if (not (is_none_or_in (valid_configs a.family) a.config)) config_choice
  raise_if
      (text_eq a.family (codes "rc32")
        && not (is_none_or_in rc32_configs a.config)
        && not (only_wide32 (requested_cores a.cores)))
      mdu_cores
  raise_if (a.random_seed && is_given a.base_seed) both_seeds
  raise_if (ltb_ℤ a.jobs (pos 1)) jobs_positive
  raise_if (below_one a.campaign) campaign_positive
  raise_if (not (is_given a.campaign) && not (is_given a.seed)) need_seed
  raise_if (not (is_given a.campaign) && not (is_given a.config)) seed_config
  ok tt

unfoldable pub campaign_cores : Text → Option (List Text) → Text → List Text
unfolding text_eq
campaign_cores family (some cores) config = cores
campaign_cores family none config =
    if text_eq family (codes "nano")
    then codes "nano" ∷ []
    else if text_eq family (codes "rc32")
    then codes "rc32-1" ∷ codes "rc32-2" ∷ codes "rc32-4" ∷ codes "rc32-8" ∷ codes "rc32-16" ∷ []
    else if text_eq family (codes "fast")
    then codes "fast-soft"
      ∷ codes "fast-dsp"
      ∷ codes "fast-agilex-soft"
      ∷ codes "fast-agilex-dsp"
      ∷ []
    else if text_eq config (codes "full-mulh")
    then codes "rc16-mulh" ∷ []
    else if text_eq config (codes "full-muldiv")
    then codes "rc16-muldiv" ∷ []
    else codes "rc16-1" ∷ codes "rc16-2" ∷ codes "rc16-4" ∷ codes "rc16-8" ∷ codes "rc16-16" ∷ []

-- `core.startswith(("fast-", "fast32-", "cached-", "cached32-"))`
abbrev pub has_no_trace : Text → Bool
has_no_trace core =
    is_prefix (codes "fast-") core
    || is_prefix (codes "fast32-") core
    || is_prefix (codes "cached-") core
    || is_prefix (codes "cached32-") core

-- The counters of a campaign.
pub record Tally : Type 0 where
  pub total : ℕ
  pub fails : ℕ
  pub external_irqs : ℕ
  pub first_failure : Option (Text × Text × ℕ)

-- Why a campaign stops early.
pub data Stopped (E : Type 0) : Type 0 where
  generation_failed : Text → ℕ → E → Stopped E
  build_failed : E → Stopped E
  compare_failed : CompareError → Stopped E

abbrev first_of : Option (Text × Text × ℕ) → Text × Text × ℕ → Option (Text × Text × ℕ)
first_of none failure = some failure
first_of (some earlier) failure = some earlier

-- A result in the counters.
unfoldable pub count_result : Text → Text → ℕ → Verdict → Tally → Tally
count_result core config seed v t = record {
  total = t.total + 1;
  fails = if v.passed then t.fails else t.fails + 1;
  external_irqs =
      if v.passed && is_prefix (codes "PASS external IRQ") v.detail
      then t.external_irqs + 1
      else t.external_irqs;
  first_failure =
      if v.passed then t.first_failure else first_of t.first_failure (core, config, seed);
}

abbrev pub no_results : Tally
no_results = record { total = 0; fails = 0; external_irqs = 0; first_failure = none }

-- The status of the process: an exception also ends it with 1.
abbrev pub status : {E : Type 0} → Result (Stopped E) Tally → ℕ
status (err e) = 1
status (ok t) = if t.fails == 0 then 0 else 1

-- `[base_seed + seed_idx for seed_idx in range(count)]`
unfoldable pub campaign_seeds : ℕ → ℕ → List ℕ
campaign_seeds base_seed zero = []
campaign_seeds base_seed (suc count) = base_seed ∷ campaign_seeds (base_seed + 1) count

module _ {E : Type 0} (R : Random) (run : List Text → Completed) (crc32 : Text → ℕ)
    (fast_iss : Text) (make_case : ℕ → Text → Text → Result E Text)
    (build_tb : Text → Text → Text → Result E Text) (family : Text) where
  -- The comparison that suits a core.
  abbrev pub checker : Text → Text → ℕ → Text → Text → Result CompareError Verdict
  checker core config seed image tb =
      if has_no_trace core
      then compare_final_state R run crc32 fast_iss core family config seed image tb
      else compare_trace R run crc32 fast_iss core family config seed image tb

  -- The images of the seeds.
  unfoldable pub generate : Text → List ℕ → Result (Stopped E) (List (ℕ × Text))
  generate config [] = ok []
  generate config (seed ∷ seeds) = elim (make_case seed family config) [
    | err e ↦ err (generation_failed config seed e)
    | ok image ↦ generate config seeds >>= λ bins. ok ((seed, image) ∷ bins)
  ]

  unfoldable pub build_cores : Text → List Text → Result (Stopped E) (List (Text × Text))
  build_cores config [] = ok []
  build_cores config (core ∷ cores) = elim (build_tb core family config) [
    | err e ↦ err (build_failed e)
    | ok tb ↦ build_cores config cores >>= λ testbenches. ok ((core, tb) ∷ testbenches)
  ]

  -- The comparisons of one core, and of every core.
  unfoldable pub compare_core :
      Text → Text → Text → List (ℕ × Text) → Tally → Result (Stopped E) Tally
  unfolding count_result compare_trace compare_final_state
  compare_core config core tb [] t = ok t
  compare_core config core tb ((seed, image) ∷ bins) t = elim (checker core config seed image tb) [
    | err e ↦ err (compare_failed e)
    | ok v ↦ compare_core config core tb bins (count_result core config seed v t)
  ]

  unfoldable pub compare_cores :
      Text → List (Text × Text) → List (ℕ × Text) → Tally → Result (Stopped E) Tally
  unfolding compare_core
  compare_cores config [] bins t = ok t
  compare_cores config ((core, tb) ∷ testbenches) bins t =
      compare_core config core tb bins t >>= λ counted.
      compare_cores config testbenches bins counted

  unfoldable pub run_configs :
      Option (List Text) → ℕ → ℕ → List Text → Tally → Result (Stopped E) Tally
  unfolding generate build_cores compare_cores campaign_cores campaign_seeds
  run_configs requested base_seed count [] t = ok t
  run_configs requested base_seed count (config ∷ configs) t =
      generate config (campaign_seeds base_seed count) >>= λ bins.
      build_cores config (campaign_cores family requested config) >>= λ testbenches.
      compare_cores config testbenches bins t >>= λ counted.
      run_configs requested base_seed count configs counted

  unfoldable pub campaign_status : Option (List Text) → ℕ → ℕ → List Text → ℕ
  unfolding run_configs
  campaign_status requested base_seed count configs =
      status (run_configs requested base_seed count configs no_results)
