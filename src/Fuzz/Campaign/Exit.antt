-- ===== src/Fuzz/Campaign/Exit.antt =====
-- tools/riscc_fuzz.py, `main`: the exit status of a campaign, against what it is to find out.
use mathlib.Core.Path.{ap}
use riscc.Prelude.{
  ℕ, ◌≡◌, refl, sym, ◌∙◌, Bool, false, ◌&&◌, List, [], ◌∷◌, Option, arith, ◌==◌, if◌then◌else◌,
}
use riscc.Prelude.Result.{Result, ok, err, ◌>>=◌}
use riscc.Asm.Text.{Text}
use riscc.Fuzz.Random.{Random}
use riscc.Fuzz.Compare.{Completed}
use riscc.Fuzz.Campaign.{
  Tally, Stopped, no_results, generate, build_cores, compare_cores, run_configs, campaign_status,
  campaign_seeds, campaign_cores,
}
use riscc.Fuzz.Campaign.Stages.{
  every, is_ok, clean, and_assoc, clean-bind, stage-bind, regroup, status-clean, every-cong,
  stage-is_ok, stage-every,
}
use riscc.Fuzz.Campaign.Counts.{check_bin, runs_bins, compare_cores-clean}

module _ {E : Type 0} (R : Random) (run : List Text → Completed) (crc32 : Text → ℕ)
    (fast_iss : Text) (make_case : ℕ → Text → Text → Result E Text)
    (build_tb : Text → Text → Text → Result E Text) (family : Text) where
  abbrev with_image : Text → (ℕ × Text → Bool) → ℕ → Bool
  with_image config test seed = elim (make_case seed family config) [
    | err e ↦ false
    | ok image ↦ test (seed, image)
  ]

  abbrev with_tb : Text → (Text × Text → Bool) → Text → Bool
  with_tb config test core = elim (build_tb core family config) [
    | err e ↦ false
    | ok tb ↦ test (core, tb)
  ]

  abbrev runs_images : Text → List ℕ → Text × Text → Bool
  runs_images config seeds (core, tb) =
      every
        (with_image config
          (check_bin R run crc32 fast_iss make_case build_tb family config core tb))
        seeds

  abbrev pub images_made : List ℕ → Text → Bool
  images_made seeds config = every (λ seed. is_ok (make_case seed family config)) seeds

  abbrev pub benches_built : List Text → Text → Bool
  benches_built cores config = every (λ core. is_ok (build_tb core family config)) cores

  abbrev pub cores_agree : List Text → List ℕ → Text → Bool
  cores_agree cores seeds config = every (with_tb config (runs_images config seeds)) cores

  -- Every seed has an image, every core a test bench, and every comparison passes.
  abbrev pub config_passes : Option (List Text) → ℕ → ℕ → Text → Bool
  config_passes requested base_seed count config =
      let seeds = campaign_seeds base_seed count in
      let cores = campaign_cores family requested config in
      images_made seeds config && (benches_built cores config && cores_agree cores seeds config)

  generate-is_ok :
      (config : Text) (seeds : List ℕ)
      → is_ok (generate R run crc32 fast_iss make_case build_tb family config seeds)
        ≡ every (λ seed. is_ok (make_case seed family config)) seeds
  unfolding generate
  generate-is_ok config [] = refl
  generate-is_ok config (seed ∷ seeds) =
      stage-is_ok (make_case seed family config) _ _ _
      ∙ ap (λ b. is_ok (make_case seed family config) && b) (generate-is_ok config seeds)

  generate-with_image :
      (config : Text) (seeds : List ℕ) (bins : List (ℕ × Text)) (test : ℕ × Text → Bool)
      → generate R run crc32 fast_iss make_case build_tb family config seeds ≡ ok bins
      → every (with_image config test) seeds ≡ every test bins
  unfolding generate
  generate-with_image config [] [] test h = refl
  generate-with_image config [] (bin ∷ bins) test h = cc
  generate-with_image config (seed ∷ seeds) bins test h =
      stage-every (make_case seed family config) _ _ _ test bins _ h
        (λ others e. generate-with_image config seeds others test e)

  build_cores-is_ok :
      (config : Text) (cores : List Text)
      → is_ok (build_cores R run crc32 fast_iss make_case build_tb family config cores)
        ≡ every (λ core. is_ok (build_tb core family config)) cores
  unfolding build_cores
  build_cores-is_ok config [] = refl
  build_cores-is_ok config (core ∷ cores) =
      stage-is_ok (build_tb core family config) _ _ _
      ∙ ap (λ b. is_ok (build_tb core family config) && b) (build_cores-is_ok config cores)

  build_cores-with_tb :
      (config : Text) (cores : List Text) (testbenches : List (Text × Text))
      (test : Text × Text → Bool)
      → build_cores R run crc32 fast_iss make_case build_tb family config cores ≡ ok testbenches
      → every (with_tb config test) cores ≡ every test testbenches
  unfolding build_cores
  build_cores-with_tb config [] [] test h = refl
  build_cores-with_tb config [] (testbench ∷ testbenches) test h = cc
  build_cores-with_tb config (core ∷ cores) testbenches test h =
      stage-every (build_tb core family config) _ _ _ test testbenches _ h
        (λ others e. build_cores-with_tb config cores others test e)

  images_are :
      (config : Text) (seeds : List ℕ) (bins : List (ℕ × Text))
      → generate R run crc32 fast_iss make_case build_tb family config seeds ≡ ok bins
      → (bench : Text × Text)
      → runs_images config seeds bench
        ≡ runs_bins R run crc32 fast_iss make_case build_tb family config bins bench
  images_are config seeds bins e (core, tb) =
      generate-with_image config seeds bins
        (check_bin R run crc32 fast_iss make_case build_tb family config core tb) e

  after_builds :
      (cores : List Text) (seeds : List ℕ) (config : Text) (bins : List (ℕ × Text)) (t : Tally)
      (next : Tally → Result (Stopped E) Tally) (later : Bool)
      → generate R run crc32 fast_iss make_case build_tb family config seeds ≡ ok bins
      → ((counted : Tally) → clean (next counted) ≡ ((counted.fails == 0) && later))
      → (testbenches : List (Text × Text))
      → build_cores R run crc32 fast_iss make_case build_tb family config cores ≡ ok testbenches
      → clean (
          compare_cores R run crc32 fast_iss make_case build_tb family config testbenches bins t
          >>= next)
        ≡ ((t.fails == 0) && (every (with_tb config (runs_images config seeds)) cores && later))
  after_builds cores seeds config bins t next later e h testbenches built =
      clean-bind {E = E}
        (compare_cores R run crc32 fast_iss make_case build_tb family config testbenches bins t)
        next later h
      ∙ ap (λ b. b && later)
          (compare_cores-clean R run crc32 fast_iss make_case build_tb family config testbenches
              bins t
            ∙ ap (λ b. (t.fails == 0) && b)
                (sym (
                  build_cores-with_tb config cores testbenches (runs_images config seeds) built
                  ∙ every-cong (runs_images config seeds)
                      (runs_bins R run crc32 fast_iss make_case build_tb family config bins)
                      testbenches (images_are config seeds bins e))))
      ∙ and_assoc (t.fails == 0) _ later

  run_configs-clean :
      (requested : Option (List Text)) (base_seed count : ℕ) (configs : List Text) (t : Tally)
      → clean (
          run_configs R run crc32 fast_iss make_case build_tb family requested base_seed count
            configs t)
        ≡ ((t.fails == 0) && every (config_passes requested base_seed count) configs)
  unfolding run_configs
  run_configs-clean requested base_seed count [] t = ground arith
  run_configs-clean requested base_seed count (config ∷ configs) t =
      let seeds = campaign_seeds base_seed count in
      let cores = campaign_cores family requested config in
      stage-bind (generate R run crc32 fast_iss make_case build_tb family config seeds) _
        (t.fails == 0) _ _ (generate-is_ok config seeds)
        (λ bins e.
          stage-bind (build_cores R run crc32 fast_iss make_case build_tb family config cores) _
            (t.fails == 0) _ _ (build_cores-is_ok config cores)
            (after_builds cores seeds config bins t
              (run_configs R run crc32 fast_iss make_case build_tb family requested base_seed count
                configs)
              (every (config_passes requested base_seed count) configs) e
              (run_configs-clean requested base_seed count configs)))
      ∙ ap (λ b. (t.fails == 0) && b)
          (regroup (images_made seeds config) (benches_built cores config)
            (cores_agree cores seeds config)
            (every (config_passes requested base_seed count) configs))

  -- The campaign exits with 0 if, in each of its configurations, every seed has an image, every core
  -- a test bench, and the comparison of every core on the image of every seed passes, and with 1
  -- otherwise.
  pub campaign_status-passes :
      (requested : Option (List Text)) (base_seed count : ℕ) (configs : List Text)
      → campaign_status R run crc32 fast_iss make_case build_tb family requested base_seed count
          configs
        ≡ (if every (config_passes requested base_seed count) configs then 0 else 1)
  unfolding campaign_status
  campaign_status-passes requested base_seed count configs =
      status-clean {E = E} (
        run_configs R run crc32 fast_iss make_case build_tb family requested base_seed count configs
          no_results)
      ∙ ap (λ b. if b then 0 else 1)
          (run_configs-clean requested base_seed count configs no_results)
