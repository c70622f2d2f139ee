-- ===== src/Fuzz/Campaign/Counts.antt =====
-- tools/riscc_fuzz.py, `main`: the count of the comparisons of a configuration.
use mathlib.Core.Path.{ap}
use riscc.Prelude.{ℕ, ◌≡◌, refl, sym, ◌∙◌, Bool, true, ◌&&◌, List, [], ◌∷◌, arith, inl, inr, ◌==◌}
use riscc.Prelude.Result.{Result, ok, err, Result-cases}
use riscc.Asm.Text.{Text}
use riscc.Fuzz.Random.{Random}
use riscc.Fuzz.Compare.{Completed, CompareError, Verdict}
use riscc.Fuzz.Compare.Agreement.{passes}
use riscc.Fuzz.Campaign.{Tally, compare_failed, count_result, checker, compare_core, compare_cores}
use riscc.Fuzz.Campaign.Stages.{every, clean, and_assoc, and_false, fails-count_result, clean-bind}

module _ {E : Type 0} (R : Random) (run : List Text → Completed) (crc32 : Text → ℕ)
    (fast_iss : Text) (make_case : ℕ → Text → Text → Result E Text)
    (build_tb : Text → Text → Text → Result E Text) (family : Text) where
  abbrev check : Text → Text → ℕ → Text → Text → Bool
  check core config seed image tb =
      passes (checker R run crc32 fast_iss make_case build_tb family core config seed image tb)

  abbrev pub check_bin : Text → Text → Text → ℕ × Text → Bool
  check_bin config core tb (seed, image) = check core config seed image tb

  abbrev pub runs_bins : Text → List (ℕ × Text) → Text × Text → Bool
  runs_bins config bins (core, tb) = every (check_bin config core tb) bins

  compare_core-ok :
      (config core tb : Text) (seed : ℕ) (image : Text) (bins : List (ℕ × Text)) (t : Tally)
      (v : Verdict)
      → checker R run crc32 fast_iss make_case build_tb family core config seed image tb ≡ ok v
      → compare_core R run crc32 fast_iss make_case build_tb family config core tb
          ((seed, image) ∷ bins)
          t
        ≡ compare_core R run crc32 fast_iss make_case build_tb family config core tb bins
            (count_result core config seed v t)
  unfolding compare_core
  compare_core-ok config core tb seed image bins t v e = rw e refl

  compare_core-err :
      (config core tb : Text) (seed : ℕ) (image : Text) (bins : List (ℕ × Text)) (t : Tally)
      (problem : CompareError)
      → checker R run crc32 fast_iss make_case build_tb family core config seed image tb
        ≡ err problem
      → compare_core R run crc32 fast_iss make_case build_tb family config core tb
          ((seed, image) ∷ bins)
          t
        ≡ err (compare_failed problem)
  unfolding compare_core
  compare_core-err config core tb seed image bins t problem e = rw e refl

  nothing_left :
      (config core tb : Text) (t : Tally)
      → clean (compare_core R run crc32 fast_iss make_case build_tb family config core tb [] t)
        ≡ ((t.fails == 0) && true)
  unfolding compare_core
  nothing_left config core tb t = ground arith

  compare_core-clean :
      (config core tb : Text) (bins : List (ℕ × Text)) (t : Tally)
      → clean (compare_core R run crc32 fast_iss make_case build_tb family config core tb bins t)
        ≡ ((t.fails == 0) && every (check_bin config core tb) bins)
  compare_core-clean config core tb [] t = nothing_left config core tb t
  compare_core-clean config core tb ((seed, image) ∷ bins) t =
      elim (Result-cases
        (checker R run crc32 fast_iss make_case build_tb family core config seed image tb)) [
          | inl (v, e) ↦
              ap clean (compare_core-ok config core tb seed image bins t v e)
              ∙ compare_core-clean config core tb bins (count_result core config seed v t)
              ∙ ap (λ b. b && every (check_bin config core tb) bins)
                  (fails-count_result core config seed v t)
              ∙ and_assoc (t.fails == 0) v.passed _
              ∙ ap (λ b. (t.fails == 0) && (b && every (check_bin config core tb) bins))
                  (sym (ap passes e))
          | inr (problem, e) ↦
              ap clean (compare_core-err config core tb seed image bins t problem e)
              ∙ sym (and_false (t.fails == 0))
              ∙ ap (λ b. (t.fails == 0) && (b && every (check_bin config core tb) bins))
                  (sym (ap passes e))
        ]

  pub compare_cores-clean :
      (config : Text) (testbenches : List (Text × Text)) (bins : List (ℕ × Text)) (t : Tally)
      → clean
          (compare_cores R run crc32 fast_iss make_case build_tb family config testbenches bins t)
        ≡ ((t.fails == 0) && every (runs_bins config bins) testbenches)
  unfolding compare_cores
  compare_cores-clean config [] bins t = ground arith
  compare_cores-clean config ((core, tb) ∷ testbenches) bins t =
      clean-bind {E = E}
        (compare_core R run crc32 fast_iss make_case build_tb family config core tb bins t)
        (compare_cores R run crc32 fast_iss make_case build_tb family config testbenches bins)
        (every (runs_bins config bins) testbenches) (compare_cores-clean config testbenches bins)
      ∙ ap (λ b. b && every (runs_bins config bins) testbenches)
          (compare_core-clean config core tb bins t)
      ∙ and_assoc (t.fails == 0) _ _
