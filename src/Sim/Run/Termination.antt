-- ===== src/Sim/Run/Termination.antt =====
-- tools/riscc_sim.py, `Sim.run`: with an instruction limit the loop ends, since at most one
-- interrupt entry stands between two instructions.
use riscc.Prelude.{
  ℕ, zero, suc, ◌+◌, ◌-◌, ◌*◌, ◌<◌, ◌≡◌, ◌≢◌, inl, inr, Bool, true, Option, none, some, arith,
  Bool-cases, if◌then◌else◌, ◌==◌,
}
use mathlib.Core.Path.{subst}
use riscc.Prelude.Int.{pos}
use riscc.Prelude.Result.{Result, ok, err, Result-cases}
use riscc.Sim.State.{Sim}
use riscc.Sim.Alu.{Undefined}
use riscc.Sim.Step.{step}
use riscc.Sim.Progress.{Advances, step-Advances}
use riscc.Sim.Run.{keeps_going, stops_here, run_loop, report, run}
use riscc.Sim.Run.Rounds.{run_loop-stop, run_loop-raise, run_loop-close, run_loop-next}

-- Twice the instructions left, and one more while an interrupt may be taken.
abbrev pub rounds_left : ℕ → Sim → ℕ
rounds_left limit m = 2 * (limit - m.insns) + (if m.ie == 0 then 0 else 1)

report-ne-none : (res : Result Undefined Sim) → report (some res) ≢ none
report-ne-none (ok m) = cc
report-ne-none (err e) = cc

module _ (limit : ℕ) (positive : 0 < limit) where
  step_shortens :
      (m m' : Sim)
      → keeps_going (pos limit) m ≡ true
      → step m ≡ ok m'
      → rounds_left limit m' < rounds_left limit m
  step_shortens m m' go e = ground (arith, subst (Advances m) e (step-Advances m))

  module _ (callback : Option (ℕ → Bool)) (update_insns : ℕ) where
    loop_returns :
        (fuel next_update calls : ℕ) (m : Sim)
        → rounds_left limit m < fuel
        → (res : Result Undefined Sim) × (run_loop
              (pos limit)
              callback
              update_insns
              fuel
              next_update
              calls
              m
            ≡ some res)
    loop_returns zero next_update calls m h = absurd (omega arith)
    loop_returns (suc fuel) next_update calls m h = elim (Bool-cases (keeps_going (pos limit) m)) [
      | inr stop ↦ (ok m, run_loop-stop _ _ _ _ _ _ _ stop)
      | inl go ↦ elim (Result-cases (step m)) [
        | inr (e, raised) ↦ (err e, run_loop-raise _ _ _ _ _ _ _ go raised)
        | inl (m', stepped) ↦ elim (Bool-cases (stops_here callback next_update calls m')) [
          | inl closed ↦ (ok m', run_loop-close _ _ _ _ _ _ _ go stepped closed)
          | inr more ↦
              rw
                (run_loop-next (pos limit) callback update_insns fuel next_update calls m go stepped
                  more)
                (loop_returns fuel _ _ m' (omega (arith, step_shortens m m' go stepped)))
        ]
      ]
    ]

    -- With a positive limit `run` comes to an end, whatever the state and the callback: twice the
    -- instructions left, one round more if interrupts are enabled, and one more, are enough.
    pub run-returns :
        (fuel : ℕ) (m : Sim)
        → rounds_left limit m < fuel
        → run (pos limit) callback update_insns fuel m ≢ none
    unfolding run
    run-returns fuel m h =
        let (res, e) = loop_returns fuel update_insns 0 m h in rw e (report-ne-none res)
