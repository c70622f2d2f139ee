-- ===== src/Sim/Run/Rounds.antt =====
-- tools/riscc_sim.py, `Sim.run`: one round of the loop, by the ways in which it can go.
use riscc.Prelude.{ℕ, suc, ◌+◌, ◌≡◌, Bool, true, false, Option, some, if◌then◌else◌}
use riscc.Prelude.Int.{ℤ}
use riscc.Prelude.Result.{ok, err}
use riscc.Sim.State.{Sim}
use riscc.Sim.Alu.{Undefined}
use riscc.Sim.Step.{step}
use riscc.Sim.Run.{keeps_going, stops_here, is_due, run_loop}

module _ (max_insns : ℤ) (callback : Option (ℕ → Bool)) (update_insns : ℕ)
    (fuel next_update calls : ℕ) (m : Sim) where
  pub run_loop-stop :
      keeps_going max_insns m ≡ false
      → run_loop max_insns callback update_insns (suc fuel) next_update calls m ≡ some (ok m)
  unfolding run_loop
  run_loop-stop stop = rw (stop, run_loop)

  pub run_loop-raise :
      {e : Undefined}
      → keeps_going max_insns m ≡ true
      → step m ≡ err e
      → run_loop max_insns callback update_insns (suc fuel) next_update calls m ≡ some (err e)
  unfolding run_loop
  run_loop-raise go raised = rw (go, raised, run_loop)

  pub run_loop-close :
      {m' : Sim}
      → keeps_going max_insns m ≡ true
      → step m ≡ ok m'
      → stops_here callback next_update calls m' ≡ true
      → run_loop max_insns callback update_insns (suc fuel) next_update calls m ≡ some (ok m')
  unfolding run_loop
  run_loop-close go stepped closed = rw (go, run_loop) (rw (stepped, closed))

  pub run_loop-next :
      {m' : Sim}
      → keeps_going max_insns m ≡ true
      → step m ≡ ok m'
      → stops_here callback next_update calls m' ≡ false
      → run_loop max_insns callback update_insns (suc fuel) next_update calls m
        ≡ run_loop max_insns callback update_insns fuel
            (if is_due callback next_update m' then m'.insns + update_insns else next_update)
            (if is_due callback next_update m' then calls + 1 else calls)
            m'
  unfolding run_loop
  run_loop-next go stepped closed = rw (go, run_loop) (rw (stepped, closed))
