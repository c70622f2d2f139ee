-- ===== src/Sim/Run.antt =====
-- tools/riscc_sim.py: `Sim.run`. The callback `update` is a parameter: it is given by its answer
-- to each of its calls, or is absent. A round of the loop that has no fuel left is `none`.
pub mod Rounds
pub mod Termination
pub mod Reach
use riscc.Prelude.{
  ℕ, zero, suc, ◌+◌, Bool, true, false, not, ◌&&◌, ◌||◌, Option, none, some, leb, if◌then◌else◌,
}
use riscc.Prelude.Int.{ℤ, pos, ltb_ℤ, leb_ℤ}
use riscc.Prelude.Result.{Result, ok, err}
use riscc.Sim.State.{Sim}
use riscc.Sim.Alu.{Undefined}
use riscc.Sim.Step.{step}

pub data Outcome : Type 0 where
  finished halt timeout : Outcome

abbrev pub outcome : Sim → Outcome
outcome m = if m.done then finished else if m.halted then halt else timeout

abbrev pub keeps_going : ℤ → Sim → Bool
keeps_going max_insns m =
    (leb_ℤ max_insns (pos 0) || ltb_ℤ (pos m.insns) max_insns) && not m.done && not m.halted

-- The callback is due, and answers that the window is closed.
abbrev pub stops_here : Option (ℕ → Bool) → ℕ → ℕ → Sim → Bool
stops_here none next_update calls m = false
stops_here (some answer) next_update calls m = leb next_update m.insns && not (answer calls)

abbrev pub is_due : Option (ℕ → Bool) → ℕ → Sim → Bool
is_due none next_update m = false
is_due (some _) next_update m = leb next_update m.insns

abbrev pub report : Option (Result Undefined Sim) → Option (Result Undefined (Outcome × Sim))
report none = none
report (some (err e)) = some (err e)
report (some (ok m)) = some (ok (outcome m, m))

module _ (max_insns : ℤ) (callback : Option (ℕ → Bool)) (update_insns : ℕ) where
  unfoldable pub run_loop : ℕ → ℕ → ℕ → Sim → Option (Result Undefined Sim)
  run_loop zero next_update calls m = none
  run_loop (suc fuel) next_update calls m = elim (keeps_going max_insns m) [
    | false ↦ some (ok m)
    | true ↦ elim (step m) [
      | err e ↦ some (err e)
      | ok m' ↦ elim (stops_here callback next_update calls m') [
        | true ↦ some (ok m')
        | false ↦
            run_loop fuel
              (if is_due callback next_update m' then m'.insns + update_insns else next_update)
              (if is_due callback next_update m' then calls + 1 else calls) m'
      ]
    ]
  ]

  unfoldable pub run : ℕ → Sim → Option (Result Undefined (Outcome × Sim))
  unfolding run_loop
  run fuel m = report (run_loop fuel update_insns 0 m)
