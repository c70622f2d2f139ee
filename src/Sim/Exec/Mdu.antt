-- ===== src/Sim/Exec/Mdu.antt =====
-- tools/riscc_sim.py: the paired product and quotient of MULHU and DIVU.
use riscc.Prelude.{ℕ, ◌+◌, ◌*◌, ◌/◌, ◌%◌, ◌^◌, ◌<◌, ◌≤◌, ◌≡◌, ◌≢◌, true, arith, bit_or}
use native.Mathlib.Nat.{mod-lt, div-add-mod}
use riscc.Prelude.Bits.{bit_or_fields}
use riscc.Prelude.Result.{ok, err}
use riscc.Sim.State.{Sim}
use riscc.Sim.Alu.{divu_operands}
use riscc.Sim.Exec.{ddd, aaa, bbb, f5, exec_mdu, set_reg}

module _ (m : Sim) (ir pc_next : ℕ) (has_mdu : m.mdu ≡ true) where
  -- MULHU, with the multiplier present, distinct result registers and 16-bit operands, does not
  -- raise: `ra` above `rd` holds the 32-bit product, and no other register changes.
  pub mulhu_lem :
      f5 ir ≡ 0x14
      → ddd ir ≢ aaa ir
      → m.r (aaa ir) < 2 ^ 16
      → m.r (bbb ir) < 2 ^ 16
      → (m' : Sim) × (exec_mdu m ir pc_next ≡ ok (m', pc_next))
        × (m'.r (aaa ir) * 2 ^ 16 + m'.r (ddd ir) ≡ m.r (aaa ir) * m.r (bbb ir))
        × ((j : ℕ) → j ≢ ddd ir → j ≢ aaa ir → m'.r j ≡ m.r j)
  unfolding exec_mdu
  mulhu_lem f distinct ha hb = (
    set_reg (set_reg m (ddd ir) (m.r (aaa ir) * m.r (bbb ir) % 2 ^ 16)) (aaa ir)
        (m.r (aaa ir) * m.r (bbb ir) / 2 ^ 16 % 2 ^ 16),
    ground arith,
    ground (arith, product-lt (m.r (aaa ir)) (m.r (bbb ir)) ha hb),
    λ j p q. ground arith,
  )
    where
      product-lt : (a b : ℕ) → a < 2 ^ 16 → b < 2 ^ 16 → a * b < 2 ^ 32
      product-lt a b p q = grind arith

  -- DIVU, with the divider present, three distinct registers, a 16-bit `ra`, and `rd` below the
  -- divisor in `rb`, does not raise: the old `rd` above the old `ra` is the new `ra` times the
  -- divisor plus the new `rd`, which is below the divisor, and no other register changes.
  pub divu_lem :
      f5 ir ≡ 0x10
      → ddd ir ≢ aaa ir
      → ddd ir ≢ bbb ir
      → aaa ir ≢ bbb ir
      → m.r (aaa ir) < 2 ^ 16
      → m.r (ddd ir) < m.r (bbb ir)
      → (m' : Sim) × (exec_mdu m ir pc_next ≡ ok (m', pc_next))
        × (m'.r (aaa ir) * m.r (bbb ir) + m'.r (ddd ir) ≡ m.r (ddd ir) * 2 ^ 16 + m.r (aaa ir))
        × (m'.r (ddd ir) < m.r (bbb ir))
        × ((j : ℕ) → j ≢ ddd ir → j ≢ aaa ir → m'.r j ≡ m.r j)
  unfolding exec_mdu
  divu_lem f da db ab ha below =
      let dividend = bit_or (m.r (ddd ir) * 2 ^ 16) (m.r (aaa ir)) in
      let divisor = m.r (bbb ir) in
      (
        set_reg (set_reg m (aaa ir) (dividend / divisor)) (ddd ir) (dividend % divisor),
        ground arith,
        ground (
          arith,
          div-add-mod dividend divisor,
          bit_or_fields 16 (m.r (ddd ir)) (m.r (aaa ir)) ha,
        ),
        ground (arith, mod-lt dividend {m = divisor}),
        λ j p q. ground arith,
      )

  -- An operand pair whose quotient would not fit is undefined.
  pub divu_overflow :
      f5 ir ≡ 0x10
      → ddd ir ≢ aaa ir
      → ddd ir ≢ bbb ir
      → aaa ir ≢ bbb ir
      → m.r (bbb ir) ≤ m.r (ddd ir)
      → exec_mdu m ir pc_next ≡ err divu_operands
  unfolding exec_mdu
  divu_overflow f da db ab above = ground arith
