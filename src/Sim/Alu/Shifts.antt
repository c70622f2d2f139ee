-- ===== src/Sim/Alu/Shifts.antt =====
-- tools/riscc_sim.py: the shift loop and the funnel shifts, against arithmetic on whole numbers.
use riscc.Prelude.{
  ℕ, zero, suc, ◌+◌, ◌-◌, ◌*◌, ◌/◌, ◌%◌, ◌^◌, ◌<◌, ◌≤◌, ◌≡◌, ◌∙◌, ap, sym, true, false, arith,
  if◌then◌else◌, bit_or,
}
use native.Mathlib.Decide.{dec_lt}
use native.Mathlib.Nat.{pow-suc}
use riscc.Prelude.Bits.{bit_or-zero, bit_and_mask, bit_or_fields, bit_or_fields_rev}
use riscc.Prelude.Int.{ℤ, pos, negsuc, shr_ℤ}
use riscc.Sim.State.{has_bits, sx16}
use riscc.Sim.Memory.Bytes.{word_sign}
use riscc.Sim.Alu.{shift_right, funnel_left, funnel_right}

halve-suc : (n v : ℕ) → v / 2 / 2 ^ n ≡ v / 2 ^ suc n
halve-suc n v = rw (pow-suc 2 n) (grind arith)

-- SRLI: the loop of `n` logical shifts gives the quotient by `2 ^ n`.
shift_right-logical : (n v : ℕ) → shift_right false n v ≡ v / 2 ^ n
unfolding shift_right
shift_right-logical zero v = omega arith
shift_right-logical (suc n) v = rw bit_or-zero (shift_right-logical n (v / 2) ∙ halve-suc n v)

-- One round of SRAI.
abbrev round : ℕ → ℕ
round v = bit_or (v / 2) (if has_bits v 0x8000 then 0x8000 else 0)

round_positive : (v : ℕ) → v < 2 ^ 15 → round v ≡ v / 2
round_positive v h = ground (arith, word_sign v (omega arith), bit_or-zero (v / 2))

round_negative : (v : ℕ) → v < 2 ^ 15 → round (0xffff - v) ≡ 0xffff - v / 2
round_negative v h = ground (
  arith,
  word_sign (0xffff - v) (omega arith),
  bit_or_fields_rev 15 1 ((0xffff - v) / 2) (omega arith),
)

positive_shift : (n v : ℕ) → v < 2 ^ 15 → shift_right true n v ≡ v / 2 ^ n
unfolding shift_right
positive_shift zero v h = omega arith
positive_shift (suc n) v h =
    ap (shift_right true n) (round_positive v h)
    ∙ positive_shift n (v / 2) (omega arith)
    ∙ halve-suc n v

-- A negative word is `0xffff - v`; its distance to the all-ones word is halved in each round.
negative_shift : (n v : ℕ) → v < 2 ^ 15 → shift_right true n (0xffff - v) ≡ 0xffff - v / 2 ^ n
unfolding shift_right
negative_shift zero v h = omega arith
negative_shift (suc n) v h =
    ap (shift_right true n) (round_negative v h)
    ∙ negative_shift n (v / 2) (omega arith)
    ∙ ap (λ (q : ℕ). 0xffff - q) (halve-suc n v)

div-pow-le : (n v : ℕ) → v / 2 ^ n ≤ v
div-pow-le n v = grind arith

sx16_positive : (v : ℕ) → v < 2 ^ 15 → sx16 v ≡ pos v
unfolding sx16
sx16_positive v h = rw (word_sign v (omega arith)) (ground arith)

sx16_negative : (v : ℕ) → v < 2 ^ 15 → sx16 (0xffff - v) ≡ negsuc v
unfolding sx16
sx16_negative v h = rw (word_sign (0xffff - v) (omega arith)) (ground arith)

-- SRAI: the signed value of the word that the loop of `n` shifts leaves is the signed value of the
-- 16-bit word, shifted right by `n` with rounding down.
shift_right-arithmetic : (n v : ℕ) → v < 2 ^ 16 → sx16 (shift_right true n v) ≡ shr_ℤ (sx16 v) n
unfolding shr_ℤ
shift_right-arithmetic n v h = elim (dec_lt v (2 ^ 15)) [
  | yes p ↦
      ap sx16 (positive_shift n v p)
      ∙ sx16_positive (v / 2 ^ n) (omega (arith, div-pow-le n v))
      ∙ sym (ap (λ (z : ℤ). shr_ℤ z n) (sx16_positive v p))
  | no p ↦
      let d : ℕ = 0xffff - v in
      let e : v ≡ 0xffff - d = omega arith in
      ap sx16 (ap (shift_right true n) e ∙ negative_shift n d (omega arith))
      ∙ sx16_negative (d / 2 ^ n) (omega (arith, div-pow-le n d))
      ∙ sym (ap (λ (z : ℤ). shr_ℤ z n) (ap sx16 e ∙ sx16_negative d (omega arith)))
]

-- FSL1 gives the high half of the 32-bit value of two 16-bit words, shifted left by one bit.
funnel_left_lem :
    (high low : ℕ)
    → high < 2 ^ 16
    → low < 2 ^ 16
    → funnel_left high low ≡ (high * 2 ^ 16 + low) * 2 % 2 ^ 32 / 2 ^ 16
unfolding funnel_left
funnel_left_lem high low hh hl = omega (arith, bit_or_fields 1 high (low / 2 ^ 15) (omega arith))

-- FSR1 gives the low half of the 32-bit value of two 16-bit words, shifted right by one bit.
funnel_right_lem :
    (high low : ℕ)
    → high < 2 ^ 16
    → low < 2 ^ 16
    → funnel_right low high ≡ (high * 2 ^ 16 + low) / 2 % 2 ^ 16
unfolding funnel_right
funnel_right_lem high low hh hl =
    ground (arith, bit_and_mask 1 high, bit_or_fields_rev 15 (high % 2) (low / 2) (omega arith))

-- The loop of n shifts: SRLI gives the quotient by 2 ^ n, and SRAI the word whose signed value is
-- that of the 16-bit word, shifted right by n with rounding down.
pub shift_right_lem :
    (n v : ℕ)
    → v < 2 ^ 16
    → (shift_right false n v ≡ v / 2 ^ n) × (sx16 (shift_right true n v) ≡ shr_ℤ (sx16 v) n)
shift_right_lem n v h = (shift_right-logical n v, shift_right-arithmetic n v h)

-- FSL1 gives the high half of the 32-bit value of two 16-bit words, shifted left by one bit, and
-- FSR1 the low half of that value, shifted right by one bit.
pub funnels_lem :
    (high low : ℕ)
    → high < 2 ^ 16
    → low < 2 ^ 16
    → (funnel_left high low ≡ (high * 2 ^ 16 + low) * 2 % 2 ^ 32 / 2 ^ 16)
      × (funnel_right low high ≡ (high * 2 ^ 16 + low) / 2 % 2 ^ 16)
funnels_lem high low hh hl = (funnel_left_lem high low hh hl, funnel_right_lem high low hh hl)
