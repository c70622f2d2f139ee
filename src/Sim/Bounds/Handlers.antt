-- ===== src/Sim/Bounds/Handlers.antt =====
-- tools/riscc_sim.py: each group of instructions keeps the state well-formed.
use riscc.Prelude.{
  ℕ, ◌*◌, ◌/◌, ◌%◌, ◌<◌, ◌^◌, not, arith, if_both, Bool-cases, inl, inr, bit_or, ltb, leb, ◌||◌,
  ◌==◌,
}
use native.Mathlib.Nat.{mod-lt}
use riscc.Prelude.Bits.{bit_and-lt, bit_or-lt, bit_xor-lt, bit_or_fields}
use riscc.Prelude.Int.{low_bits-lt, eqb_ℤ, negsuc}
use riscc.Prelude.Result.{Result, ok, err}
use riscc.Sim.State.{Sim, has_bits}
use riscc.Sim.Memory.{load_word}
use riscc.Sim.Alu.{Undefined}
use riscc.Sim.Exec.{
  ddd, aaa, f5, bbb, imm8, set_reg, set_sreg, link_sreg, Next, exec_long, exec_mem, branch_rel,
  branch_taken, exec_branch, exec_imm, exec_mdu,
}
use riscc.Sim.Bounds.Values.{IsWord, update-AreWords}
use riscc.Sim.Bounds.Memory.{WellFormed, LoadFits, load_word-LoadFits, store_word-WellFormed}

-- What an instruction leaves, if it is defined: a well-formed state and a halfword address.
abbrev pub Keeps : Result Undefined Next → Type 0
Keeps (ok (m, pc_next)) = WellFormed m × (pc_next < 2 ^ 15)
Keeps (err e) = Unit

pub set_reg-WellFormed : (m : Sim) (d v : ℕ) → WellFormed m → IsWord v → WellFormed (set_reg m d v)
set_reg-WellFormed m d v w h = (w.0, update-AreWords d v w.1 h, w.2, w.3, w.4)

pub set_sreg-WellFormed :
    (m : Sim) (d v : ℕ) → WellFormed m → IsWord v → WellFormed (set_sreg m d v)
set_sreg-WellFormed m d v w h = (w.0, w.1, update-AreWords d v w.2 h, w.3, w.4)

pub link_sreg-WellFormed :
    (m : Sim) (d v : ℕ) → WellFormed m → IsWord v → WellFormed (link_sreg m d v)
link_sreg-WellFormed m d v w h = if_both WellFormed (d == 0) w (set_sreg-WellFormed m d v w h)

-- A load that fits may write its value to a register.
pub load-Keeps :
    (l : ℕ × Sim) (d pc_next : ℕ)
    → LoadFits l
    → pc_next < 2 ^ 15
    → Keeps (ok (set_reg l.1 d l.0, pc_next))
load-Keeps l d pc_next h hpc = (set_reg-WellFormed l.1 d l.0 h.1 h.0, hpc)

module _ (m : Sim) (ir pc_next : ℕ) (w : WellFormed m) (hpc : pc_next < 2 ^ 15) where
  pub exec_long-Keeps : Keeps (exec_long m ir pc_next)
  unfolding exec_long
  exec_long-Keeps =
      if_both Keeps (not m.long_jall) tt
        (link_sreg-WellFormed m (ddd ir) _ w (omega arith), omega arith)

  pub exec_mem-Keeps : Keeps (exec_mem m ir pc_next)
  unfolding exec_mem
  exec_mem-Keeps =
      if_both Keeps (has_bits ir 1) (store_word-WellFormed m _ _ 3 w (w.1 (ddd ir)), hpc)
        (load-Keeps (load_word m _) (ddd ir) pc_next (load_word-LoadFits m _ w) hpc)

  pub exec_branch-Keeps : Keeps (exec_branch m ir pc_next)
  unfolding exec_branch
  exec_branch-Keeps =
      if_both Keeps (ltb (ddd ir) 4)
        (w, if_both (λ p. p < 2 ^ 15) (branch_taken (ddd ir) (m.r 0)) (low_bits-lt 15 _) hpc)
        (if_both Keeps (ddd ir == 4)
          (if_both WellFormed (eqb_ℤ (branch_rel (imm8 ir)) (negsuc 0)) w w, low_bits-lt 15 _) tt)

  -- A write of a word to a register.
  pub writes : (d v : ℕ) → IsWord v → Keeps (ok (set_reg m d v, pc_next))
  writes d v h = (set_reg-WellFormed m d v w h, hpc)

  pub exec_imm-Keeps : Keeps (exec_imm m ir pc_next)
  unfolding exec_imm
  exec_imm-Keeps =
      let d = ddd ir in
      let imm : IsWord (imm8 ir) = omega arith in
      if_both Keeps (aaa ir == 0) (writes d _ imm) (
        if_both Keeps (aaa ir == 1) (writes d _ (omega arith)) (
          if_both Keeps (aaa ir == 2) (writes d _ (low_bits-lt 16 _)) (
            if_both Keeps (aaa ir == 3) (if_both Keeps m.nano tt (writes 0 _ (low_bits-lt 16 _))) (
              if_both Keeps (aaa ir == 4) (writes d _ (bit_and-lt 16 _ _ (w.1 d) imm)) (
                if_both Keeps (aaa ir == 5) (writes d _ (bit_or-lt 16 _ _ (w.1 d) imm)) (
                  if_both Keeps (aaa ir == 6) (writes d _ (bit_xor-lt 16 _ _ (w.1 d) imm))
                    exec_branch-Keeps))))))

  -- The partial quotient of a dividend whose high half is below the divisor fits a word.
  quotient-lt :
      (high low divisor : ℕ)
      → IsWord low
      → high < divisor
      → IsWord (bit_or (high * 2 ^ 16) low / divisor)
  quotient-lt high low divisor hl hh = rw (bit_or_fields 16 high low hl) (grind arith)

  pub exec_mdu-Keeps : Keeps (exec_mdu m ir pc_next)
  unfolding exec_mdu
  exec_mdu-Keeps =
      let d = ddd ir in
      let a = aaa ir in
      let b = bbb ir in
      if_both Keeps (not m.mdu) tt (
        if_both Keeps (f5 ir == 0x14)
          (if_both Keeps (d == a) tt (
            set_reg-WellFormed (set_reg m d (m.r a * m.r b % 2 ^ 16)) a _
                (set_reg-WellFormed m d _ w (omega arith)) (omega arith),
            hpc,
          ))
          (if_both Keeps (d == a || d == b || a == b) tt
            (elim (Bool-cases (m.r b == 0 || leb (m.r b) (m.r d))) [
              | inl bad ↦ rw bad tt
              | inr good ↦ rw good (
                set_reg-WellFormed (set_reg m a (bit_or (m.r d * 2 ^ 16) (m.r a) / m.r b)) d _
                    (set_reg-WellFormed m a _ w
                      (quotient-lt (m.r d) (m.r a) (m.r b) (w.1 a) (ground arith)))
                    (ground (arith, mod-lt (bit_or (m.r d * 2 ^ 16) (m.r a)) {m = m.r b}, w.1 b)),
                hpc,
              )
            ])))
