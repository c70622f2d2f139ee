-- ===== src/Prelude/Int.antt =====
-- Python's unbounded integers, over the native numbers. `negsuc n` is -(n + 1). The bit operations
-- read a negative number as its infinite two's complement, as Python does: `negsuc n` is `~n`.
use Prim.Native.Nat.{ℕ, suc, ◌+◌, ◌-◌, ◌*◌, ◌/◌, ◌%◌, ◌^◌, ◌≤◌, ◌<◌, bit_and, bit_or, bit_xor}
use mathlib.Core.Path.{◌≡◌, refl}
use mathlib.Core.Bool.{Bool}
use native.Mathlib.Omega.{arith}
use native.Mathlib.Nat.{one-le-pow, mod-lt}
use riscc.Prelude.Tests.{ltb, leb, ◌==◌, if◌then◌else◌}

pub data ℤ : Type 0 where
  pos : ℕ → ℤ
  negsuc : ℕ → ℤ

abbrev pub pos_part : ℤ → ℕ
pos_part (pos n) = n
pos_part (negsuc n) = 0

abbrev pub neg_part : ℤ → ℕ
neg_part (pos n) = 0
neg_part (negsuc n) = suc n

-- a - b, as an integer.
abbrev pub sub_ℕ : ℕ → ℕ → ℤ
sub_ℕ a b = if leb b a then pos (a - b) else negsuc (b - a - 1)

infixl 65 ◌+ℤ◌ ◌-ℤ◌
infix 50 ◌≤ℤ◌
unfoldable pub ◌+ℤ◌ : ℤ → ℤ → ℤ
a +ℤ b = sub_ℕ (pos_part a + pos_part b) (neg_part a + neg_part b)

unfoldable pub ◌-ℤ◌ : ℤ → ℤ → ℤ
a -ℤ b = sub_ℕ (pos_part a + neg_part b) (neg_part a + pos_part b)

abbrev pub ◌≤ℤ◌ : ℤ → ℤ → Type 0
a ≤ℤ b = pos_part a + neg_part b ≤ pos_part b + neg_part a

abbrev pub ltb_ℤ : ℤ → ℤ → Bool
ltb_ℤ a b = ltb (pos_part a + neg_part b) (pos_part b + neg_part a)

abbrev pub leb_ℤ : ℤ → ℤ → Bool
leb_ℤ a b = leb (pos_part a + neg_part b) (pos_part b + neg_part a)

abbrev pub eqb_ℤ : ℤ → ℤ → Bool
eqb_ℤ a b = pos_part a + neg_part b == pos_part b + neg_part a

-- `z & (2 ** w - 1)`
abbrev pub low_bits : ℕ → ℤ → ℕ
low_bits w (pos n) = n % 2 ^ w
low_bits w (negsuc n) = 2 ^ w - 1 - n % 2 ^ w

-- `a & ~b` on numbers that are not negative
abbrev pub and_not : ℕ → ℕ → ℕ
and_not a b = bit_xor a (bit_and a b)

unfoldable pub and_ℤ : ℤ → ℤ → ℤ
and_ℤ (pos a) (pos b) = pos (bit_and a b)
and_ℤ (pos a) (negsuc b) = pos (and_not a b)
and_ℤ (negsuc a) (pos b) = pos (and_not b a)
and_ℤ (negsuc a) (negsuc b) = negsuc (bit_or a b)

unfoldable pub or_ℤ : ℤ → ℤ → ℤ
or_ℤ (pos a) (pos b) = pos (bit_or a b)
or_ℤ (pos a) (negsuc b) = negsuc (and_not b a)
or_ℤ (negsuc a) (pos b) = negsuc (and_not a b)
or_ℤ (negsuc a) (negsuc b) = negsuc (bit_and a b)

-- `z << k` and `z >> k` for a count that is not negative
unfoldable pub shl_ℤ : ℤ → ℕ → ℤ
shl_ℤ (pos n) k = pos (n * 2 ^ k)
shl_ℤ (negsuc n) k = negsuc (suc n * 2 ^ k - 1)

unfoldable pub shr_ℤ : ℤ → ℕ → ℤ
shr_ℤ (pos n) k = pos (n / 2 ^ k)
shr_ℤ (negsuc n) k = negsuc (n / 2 ^ k)

mixed_bits : and_ℤ (negsuc 1) (pos 13) ≡ pos 12
unfolding and_ℤ
mixed_bits = refl

or_of_negative : or_ℤ (negsuc 3) (pos 1) ≡ negsuc 2
unfolding or_ℤ
or_of_negative = refl

pow_pos : (w : ℕ) → 0 < 2 ^ w
pow_pos w = omega (arith, one-le-pow w 2)

pub low_bits-lt : (w : ℕ) (z : ℤ) → low_bits w z < 2 ^ w
low_bits-lt w (pos n) = ground (arith, one-le-pow w 2, mod-lt n (pow_pos w))
low_bits-lt w (negsuc n) = ground (arith, one-le-pow w 2)
