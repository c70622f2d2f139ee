-- ===== src/Sim/Run/Reach.antt =====
-- tools/riscc_sim.py, `Sim.run`: the loop follows the steps of the simulator, and how it ends.
use riscc.Prelude.{
  List, ℕ, zero, suc, ◌<◌, ◌≡◌, ◌⊎◌, inl, inr, refl, Bool, true, false, Option, none, some, arith,
  Bool-cases, if◌then◌else◌,
}
use mathlib.Core.Path.{subst}
use riscc.Prelude.Int.{ℤ, pos, ◌≤ℤ◌, leb_ℤ}
use riscc.Prelude.Result.{Result, ok, err, Result-cases}
use riscc.Sim.State.{Sim, Options, init}
use riscc.Sim.Alu.{Undefined}
use riscc.Sim.Step.{step}
use riscc.Sim.Bounds.Values.{AreBytes}
use riscc.Sim.Bounds.Memory.{WellFormed}
use riscc.Sim.Bounds.Step.{init-WellFormed, StaysWellFormed, step-StaysWellFormed}
use riscc.Sim.Run.{Outcome, finished, halt, timeout, outcome, keeps_going, run_loop, report, run}
use riscc.Sim.Run.Rounds.{run_loop-stop, run_loop-raise, run_loop-next}

-- The states that some number of steps leads to.
pub data Reach : Sim → Sim → Type 0 where
  here : (m : Sim) → Reach m m
  after : {m m' m'' : Sim} → step m ≡ ok m' → Reach m' m'' → Reach m m''

-- Every state that steps lead to from a well-formed state is well-formed.
Reach-WellFormed : {m m' : Sim} → Reach m m' → WellFormed m → WellFormed m'
Reach-WellFormed (here m) w = w
Reach-WellFormed (after {m} e rest) w =
    Reach-WellFormed rest (subst StaysWellFormed e (step-StaysWellFormed m w))

-- Every state that steps lead to from the state that the constructor makes, of any image of bytes and
-- any UART input of bytes, is well-formed: the words of the memory, the registers and the S-registers
-- fit 16 bits, the program counter 15, and the UART holds bytes.
pub init-Reach :
    (image : List ℕ) (o : Options) (uart_in : List ℕ) (m : Sim)
    → AreBytes image
    → AreBytes uart_in
    → Reach (init image o uart_in) m
    → WellFormed m
init-Reach image o uart_in m hi hu steps =
    Reach-WellFormed steps (init-WellFormed image o uart_in hi hu)

-- The loop goes on from such a state: the machine is neither done nor halted, and a positive limit is
-- not reached.
pub record Running (max_insns : ℤ) (m : Sim) : Type 0 where
  pub not_done : m.done ≡ false
  pub not_halted : m.halted ≡ false
  pub below_limit : (max_insns ≤ℤ pos 0) ⊎ (pos (suc m.insns) ≤ℤ max_insns)

-- So many steps, each from a state that the loop goes on from.
pub data Runs (max_insns : ℤ) : ℕ → Sim → Sim → Type 0 where
  started : (m : Sim) → Runs max_insns 0 m m
  goes_on :
      {n : ℕ} {m m' m'' : Sim}
      → Running max_insns m
      → step m ≡ ok m'
      → Runs max_insns n m' m''
      → Runs max_insns (suc n) m m''

-- The first state that the loop does not go on from.
abbrev pub StopsAt : ℤ → ℕ → Sim → Sim → Type 0
StopsAt max_insns fuel m m' = (n : ℕ) × (n < fuel) × Runs max_insns n m m'

-- How a run without a callback may end: at the first state that is done, or halted, or at the limit,
-- with the outcome of that state; or by an undefined instruction, in a state that it goes on from. Or
-- its fuel is used up, by as many steps from states that it goes on from.
abbrev pub Explains : ℤ → ℕ → Sim → Option (Result Undefined (Outcome × Sim)) → Type 0
Explains max_insns fuel m none = (m' : Sim) × Runs max_insns fuel m m'
Explains max_insns fuel m (some (ok (finished, m'))) =
    StopsAt max_insns fuel m m' × (m'.done ≡ true)
Explains max_insns fuel m (some (ok (halt, m'))) =
    StopsAt max_insns fuel m m' × (m'.done ≡ false) × (m'.halted ≡ true)
Explains max_insns fuel m (some (ok (timeout, m'))) =
    StopsAt max_insns fuel m m'
    × (m'.done ≡ false)
    × (m'.halted ≡ false)
    × (pos 1 ≤ℤ max_insns)
    × (max_insns ≤ℤ pos m'.insns)
Explains max_insns fuel m (some (err e)) =
    (m' : Sim) × StopsAt max_insns fuel m m' × Running max_insns m' × (step m' ≡ err e)

module _ (max_insns : ℤ) (update_insns : ℕ) where
  running : (m : Sim) → keeps_going max_insns m ≡ true → Running max_insns m
  running m go = record {
    not_done = ground arith;
    not_halted = ground arith;
    below_limit = limit m go;
  }
    where
      limit :
          (n : Sim)
          → keeps_going max_insns n ≡ true
          → (max_insns ≤ℤ pos 0) ⊎ (pos (suc n.insns) ≤ℤ max_insns)
      limit n h = elim (Bool-cases (leb_ℤ max_insns (pos 0))) [
        | inl e ↦ inl (ground arith)
        | inr e ↦ inr (ground arith)
      ]

  classified :
      (fuel : ℕ) (m : Sim) (d h : Bool)
      → keeps_going max_insns m ≡ false
      → m.done ≡ d
      → m.halted ≡ h
      → Explains max_insns
          (suc fuel)
          m
          (some (ok ((if d then finished else if h then halt else timeout), m)))
  classified fuel m true h stop ed eh = ((0, omega arith, started m), ed)
  classified fuel m false true stop ed eh = ((0, omega arith, started m), ed, eh)
  classified fuel m false false stop ed eh =
      ((0, omega arith, started m), ed, eh, ground arith, ground arith)

  stopped :
      (fuel : ℕ) (m : Sim)
      → keeps_going max_insns m ≡ false
      → Explains max_insns (suc fuel) m (some (ok (outcome m, m)))
  stopped fuel m stop = classified fuel m m.done m.halted stop refl refl

  module _ {m m' : Sim} (fuel : ℕ) (go : Running max_insns m) (stepped : step m ≡ ok m') where
    one_more : {m'' : Sim} → StopsAt max_insns fuel m' m'' → StopsAt max_insns (suc fuel) m m''
    one_more (n, h, rest) = (suc n, omega (arith, h), goes_on go stepped rest)

    earlier :
        (o : Option (Result Undefined (Outcome × Sim)))
        → Explains max_insns fuel m' o
        → Explains max_insns (suc fuel) m o
    earlier none h = (h.0, goes_on go stepped h.1)
    earlier (some (ok (finished, _))) h = (one_more h.0, h.1)
    earlier (some (ok (halt, _))) h = (one_more h.0, h.1, h.2)
    earlier (some (ok (timeout, _))) h = (one_more h.0, h.1, h.2, h.3, h.4)
    earlier (some (err _)) h = (h.0, one_more h.1, h.2, h.3)

  loop-Explains :
      (fuel next_update calls : ℕ) (m : Sim)
      → Explains max_insns fuel m
          (report (run_loop max_insns none update_insns fuel next_update calls m))
  unfolding run_loop
  loop-Explains zero next_update calls m = (m, started m)
  loop-Explains (suc fuel) next_update calls m = elim (Bool-cases (keeps_going max_insns m)) [
    | inr stop ↦
        rw (run_loop-stop max_insns none update_insns fuel next_update calls m stop)
          (stopped fuel m stop)
    | inl go ↦ elim (Result-cases (step m)) [
      | inr (e, raised) ↦
          rw (run_loop-raise max_insns none update_insns fuel next_update calls m go raised)
            (m, (0, omega arith, started m), running m go, raised)
      | inl (m', stepped) ↦
          rw (run_loop-next max_insns none update_insns fuel next_update calls m go stepped refl)
            (earlier fuel (running m go) stepped _ (loop-Explains fuel _ _ m'))
    ]
  ]

  -- A run without a callback steps from states that are neither done nor halted nor at a positive
  -- instruction limit. It ends at the first state that is one of these, within its fuel: finished
  -- if done, halted if halted and not done, timed out otherwise; or it raises what the step from a
  -- state before that raises; or it takes as many such steps as its fuel.
  pub run-Explains :
      (fuel : ℕ) (m : Sim) → Explains max_insns fuel m (run max_insns none update_insns fuel m)
  unfolding run
  run-Explains fuel m = loop-Explains fuel update_insns 0 m
