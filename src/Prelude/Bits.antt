-- ===== src/Prelude/Bits.antt =====
-- The bit operations at variables: split at any position, disjoint fields as sums, low masks as
-- remainders. Each law goes from one binary digit to all by induction.
use Prim.Native.Nat.{
  ℕ, zero, suc, ◌+◌, ◌-◌, ◌*◌, ◌/◌, ◌%◌, ◌^◌, ◌≤◌, ◌<◌, min, max, bit_and, bit_or, bit_xor, digits,
  bitwise, bit_and-bitwise, bit_or-bitwise, bit_xor-bitwise, differ,
}
use mathlib.Core.Path.{◌≡◌, ◌∙◌, ap, refl}
use native.Mathlib.Decide.{dec_le}
use native.Mathlib.Nat.{pow-suc, one-le-pow, div-add-mod}
use native.Mathlib.Omega.{arith}

-- The native operations recurse on digits with the first operand as fuel.
module _ (rest : ℕ → ℕ) (digit : ℕ → ℕ → ℕ) where
  -- One round more than enough changes nothing, so any number of rounds more does not.
  spare_round :
      (rounds x y : ℕ)
      → x ≤ rounds
      → digits rest digit (suc rounds) x y ≡ digits rest digit rounds x y
  spare_round rounds zero y h = stop rounds
    where
      stop : (k : ℕ) → digits rest digit (suc k) 0 y ≡ digits rest digit k 0 y
      stop zero = refl
      stop (suc k) = refl
  spare_round zero (suc x) y h = absurd (omega arith)
  spare_round (suc rounds) (suc x) y h =
      rw (spare_round rounds (suc x / 2) (y / 2) (omega arith)) refl

  enough_rounds :
      (more rounds x y : ℕ)
      → rounds ≤ more
      → x ≤ rounds
      → digits rest digit more x y ≡ digits rest digit rounds x y
  enough_rounds zero rounds x y h k =
      let same : 0 ≡ rounds = omega arith in ap (λ n. digits rest digit n x y) same
  enough_rounds (suc more) rounds x y h k = elim (dec_le rounds more) [
    | yes le ↦ spare_round more x y (omega arith) ∙ enough_rounds more rounds x y le k
    | no gt ↦ let same : suc more ≡ rounds = omega arith in ap (λ n. digits rest digit n x y) same
  ]

  -- So an operation with this meaning goes digit by digit.
  digitwise :
      (op : ℕ → ℕ → ℕ)
      → ((x y : ℕ) → op x y ≡ bitwise rest digit x y)
      → ((y : ℕ) → rest y ≡ rest (y / 2) * 2 + digit 0 (y % 2))
      → (x y : ℕ) → op x y ≡ op (x / 2) (y / 2) * 2 + digit (x % 2) (y % 2)
  digitwise op meaning at_zero zero y = omega (arith, meaning 0 y, meaning 0 (y / 2), at_zero y)
  digitwise op meaning at_zero (suc x) y = omega (
    arith,
    meaning (suc x) y,
    meaning (suc x / 2) (y / 2),
    enough_rounds x (suc x / 2) (suc x / 2) (y / 2) (omega arith) (omega arith),
  )

bit_or_step : (x y : ℕ) → bit_or x y ≡ bit_or (x / 2) (y / 2) * 2 + max (x % 2) (y % 2)
bit_or_step = digitwise (λ y. y) max bit_or bit_or-bitwise (λ y. omega arith)

bit_and_step : (x y : ℕ) → bit_and x y ≡ bit_and (x / 2) (y / 2) * 2 + min (x % 2) (y % 2)
bit_and_step = digitwise (λ y. 0) min bit_and bit_and-bitwise (λ y. omega arith)

bit_xor_step : (x y : ℕ) → bit_xor x y ≡ bit_xor (x / 2) (y / 2) * 2 + differ (x % 2) (y % 2)
bit_xor_step = digitwise (λ y. y) differ bit_xor bit_xor-bitwise (λ y. omega arith)

-- The digits of a number at position `k + 1`, by way of its half.
div-pow-suc : (k a : ℕ) → a / 2 ^ suc k ≡ a / 2 / 2 ^ k
div-pow-suc k a = rw pow-suc (grind arith)

mod-pow-suc : (k a : ℕ) → a % 2 ^ suc k ≡ a / 2 % 2 ^ k * 2 + a % 2
mod-pow-suc k a = rw pow-suc (grind arith)

mul_suc_pow : (q k : ℕ) → q * 2 ^ suc k ≡ q * 2 ^ k * 2
mul_suc_pow q k = rw pow-suc (omega arith)

-- An operation that works digit by digit.
module _ (op f : ℕ → ℕ → ℕ) (step : (a b : ℕ) → op a b ≡ op (a / 2) (b / 2) * 2 + f (a % 2) (b % 2))
    (none : op 0 0 ≡ 0) where
  split_of_step :
      (k a b : ℕ) → op a b ≡ op (a / 2 ^ k) (b / 2 ^ k) * 2 ^ k + op (a % 2 ^ k) (b % 2 ^ k)
  split_of_step zero a b = ground arith
  split_of_step (suc k) a b = ground (
    arith,
    step a b,
    step (a % 2 ^ suc k) (b % 2 ^ suc k),
    split_of_step k (a / 2) (b / 2),
    div-pow-suc k a,
    div-pow-suc k b,
    mod-pow-suc k a,
    mod-pow-suc k b,
    pow-suc 2 k,
    mul_suc_pow (op (a / 2 / 2 ^ k) (b / 2 / 2 ^ k)) k,
  )

  lt_of_step :
      ((x y : ℕ) → x < 2 → y < 2 → f x y < 2) → (k a b : ℕ) → a < 2 ^ k → b < 2 ^ k → op a b < 2 ^ k
  lt_of_step g zero a b p q = ground arith
  lt_of_step g (suc k) a b p q =
      ground (arith, step a b, pow-suc 2 k, lt_of_step g k (a / 2) (b / 2), g (a % 2) (b % 2))

pub zero-bit_or : (b : ℕ) → bit_or 0 b ≡ b
zero-bit_or b = bit_or-bitwise 0 b

pub zero-bit_and : (b : ℕ) → bit_and 0 b ≡ 0
zero-bit_and b = bit_and-bitwise 0 b

-- What is known at zero, and passes from the half to the number, is known of all numbers.
by_halves : (P : ℕ → Type 0) → P 0 → ((x : ℕ) → P (x / 2) → P x) → (bound x : ℕ) → x ≤ bound → P x
by_halves P base step bound zero h = base
by_halves P base step zero (suc x) h = absurd (omega arith)
by_halves P base step (suc bound) (suc x) h =
    step (suc x) (by_halves P base step bound (suc x / 2) (omega arith))

pub bit_or-zero : (x : ℕ) → bit_or x 0 ≡ x
bit_or-zero x =
    by_halves (λ v. bit_or v 0 ≡ v) refl (λ v h. omega (arith, bit_or_step v 0, h)) x x
      (omega arith)

pub bit_and-zero : (x : ℕ) → bit_and x 0 ≡ 0
bit_and-zero x =
    by_halves (λ v. bit_and v 0 ≡ 0) refl (λ v h. omega (arith, bit_and_step v 0, h)) x x
      (omega arith)

bit_xor-zero : (x : ℕ) → bit_xor x 0 ≡ x
bit_xor-zero x =
    by_halves (λ v. bit_xor v 0 ≡ v) refl
      (λ v h. ground (arith, bit_xor_step v 0, h, differ_zero (v % 2))) x x (omega arith)
  where
    differ_zero : (d : ℕ) → differ d 0 ≡ d
    differ_zero zero = refl
    differ_zero (suc d) = refl

-- `x ^ (x & 1)` clears the lowest digit.
pub bit_xor_low : (x : ℕ) → bit_xor x (x % 2) ≡ x / 2 * 2
bit_xor_low x = omega (arith, bit_xor_step x (x % 2), digit, shifted)
  where
    same : (d : ℕ) → differ d d ≡ 0
    same zero = refl
    same (suc d) = same d

    digit : differ (x % 2) (x % 2 % 2) ≡ 0
    digit = ap (differ (x % 2)) (omega arith) ∙ same (x % 2)

    shifted : bit_xor (x / 2) (x % 2 / 2) ≡ x / 2
    shifted = ap (bit_xor (x / 2)) (omega arith) ∙ bit_xor-zero (x / 2)

-- Any position splits an operation into the high and the low digits.
pub bit_and_split :
    (k a b : ℕ)
    → bit_and a b ≡ bit_and (a / 2 ^ k) (b / 2 ^ k) * 2 ^ k + bit_and (a % 2 ^ k) (b % 2 ^ k)
bit_and_split = split_of_step bit_and min bit_and_step refl

pub bit_or_split :
    (k a b : ℕ)
    → bit_or a b ≡ bit_or (a / 2 ^ k) (b / 2 ^ k) * 2 ^ k + bit_or (a % 2 ^ k) (b % 2 ^ k)
bit_or_split = split_of_step bit_or max bit_or_step refl

-- No operation makes a word wider.
pub bit_and-lt : (k a b : ℕ) → a < 2 ^ k → b < 2 ^ k → bit_and a b < 2 ^ k
bit_and-lt = lt_of_step bit_and min bit_and_step refl (λ x y p q. omega arith)

pub bit_or-lt : (k a b : ℕ) → a < 2 ^ k → b < 2 ^ k → bit_or a b < 2 ^ k
bit_or-lt = lt_of_step bit_or max bit_or_step refl (λ x y p q. omega arith)

differ-lt : (x y : ℕ) → x < 2 → y < 2 → differ x y < 2
differ-lt zero y p q = q
differ-lt (suc x) zero p q = p
differ-lt (suc zero) (suc zero) p q = omega arith
differ-lt (suc zero) (suc (suc y)) p q = absurd (omega arith)
differ-lt (suc (suc x)) (suc y) p q = absurd (omega arith)

pub bit_xor-lt : (k a b : ℕ) → a < 2 ^ k → b < 2 ^ k → bit_xor a b < 2 ^ k
bit_xor-lt = lt_of_step bit_xor differ bit_xor_step refl differ-lt

-- A mask of `k` ones is the remainder by `2 ^ k`.
pub bit_and_mask : (k a : ℕ) → bit_and a (2 ^ k - 1) ≡ a % 2 ^ k
bit_and_mask zero a = rw bit_and-zero (omega arith)
bit_and_mask (suc k) a = ground (
  arith,
  bit_and_step a (2 ^ suc k - 1),
  pow-suc 2 k,
  mod-pow-suc k a,
  one-le-pow k 2,
  bit_and_mask k (a / 2),
)

-- Disjoint fields are put together by a sum.
pub bit_or_fields : (k q r : ℕ) → r < 2 ^ k → bit_or (q * 2 ^ k) r ≡ q * 2 ^ k + r
bit_or_fields zero q r h = ground (arith, bit_or-zero q)
bit_or_fields (suc k) q r h =
    ground (
      arith,
      bit_or_step (q * 2 ^ suc k) r,
      mul_suc_pow q k,
      pow-suc 2 k,
      bit_or_fields k q (r / 2),
    )

pub bit_or_fields_rev : (k q r : ℕ) → r < 2 ^ k → bit_or r (q * 2 ^ k) ≡ q * 2 ^ k + r
bit_or_fields_rev zero q r h = ground (arith, zero-bit_or q)
bit_or_fields_rev (suc k) q r h = ground (
  arith,
  bit_or_step r (q * 2 ^ suc k),
  mul_suc_pow q k,
  pow-suc 2 k,
  bit_or_fields_rev k q (r / 2),
)

-- `v & 2 ** k` tests the digit at position `k`.
pub bit_and_power : (k v : ℕ) → bit_and v (2 ^ k) ≡ v / 2 ^ k % 2 * 2 ^ k
bit_and_power zero v = omega (arith, bit_and_mask 1 v)
bit_and_power (suc k) v = ground (
  arith,
  bit_and_step v (2 ^ suc k),
  pow-suc 2 k,
  div-pow-suc k v,
  one-le-pow k 2,
  mul_suc_pow (v / 2 / 2 ^ k % 2) k,
  bit_and_power k (v / 2),
)

-- `x | r` where `x` has no digit below position `k`, and `r` none above.
pub bit_or_above : (k x r : ℕ) → x % 2 ^ k ≡ 0 → r < 2 ^ k → bit_or x r ≡ x + r
bit_or_above k x r h p = ground (arith, bit_or_fields k (x / 2 ^ k) r p, div-add-mod x (2 ^ k))
