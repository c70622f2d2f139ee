-- ===== src/Sim/Bounds/Values.antt =====
-- tools/riscc_sim.py: the widths of the values that loads, stores and the ALU compute.
use riscc.Prelude.{
  ℕ, zero, suc, ◌/◌, ◌<◌, ◌^◌, Bool, List, [], ◌∷◌, ◌++◌, arith, if_both, if◌then◌else◌, bit_and,
  bit_or, ◌&&◌, ◌==◌,
}
use riscc.Prelude.Bits.{bit_and-lt, bit_or-lt, bit_xor-lt, bit_and_mask}
use riscc.Prelude.Int.{low_bits-lt}
use riscc.Prelude.Result.{Result, ok, err}
use riscc.Sim.State.{Sim, Profile, update, has_bits}
use riscc.Sim.Memory.{word_index, merge_bytes, ldb}
use riscc.Sim.Alu.{Undefined, alu, shift_right, funnel_left, funnel_right}

abbrev pub IsWord : ℕ → Type 0
IsWord v = v < 2 ^ 16

abbrev pub AreWords : (ℕ → ℕ) → Type 0
AreWords f = (i : ℕ) → IsWord (f i)

abbrev pub AreBytes : List ℕ → Type 0
AreBytes [] = Unit
AreBytes (b ∷ bs) = (b < 256) × AreBytes bs

pub AreBytes-append : (xs ys : List ℕ) → AreBytes xs → AreBytes ys → AreBytes (xs ++ ys)
AreBytes-append [] ys h k = k
AreBytes-append (x ∷ xs) ys h k = (h.0, AreBytes-append xs ys h.1 k)

pub update-AreWords : {f : ℕ → ℕ} (k v : ℕ) → AreWords f → IsWord v → AreWords (update f k v)
update-AreWords k v hf hv i = if_both IsWord (i == k) hv (hf i)

pub merge_bytes-lt :
    (old val mask : ℕ) → IsWord old → IsWord val → IsWord (merge_bytes old val mask)
unfolding merge_bytes
merge_bytes-lt old val mask ho hv =
    if_both IsWord (has_bits mask 2)
      (bit_or-lt 16 _ _ (bit_and-lt 16 _ _ low (omega arith)) (bit_and-lt 16 _ _ hv (omega arith)))
      low
  where
    low : IsWord (if has_bits mask 1 then bit_or (bit_and old 0xff00) (bit_and val 0x00ff) else old)
    low =
        if_both IsWord (has_bits mask 1)
          (bit_or-lt 16 _ _ (bit_and-lt 16 _ _ ho (omega arith))
            (bit_and-lt 16 _ _ hv (omega arith)))
          ho

pub ldb-lt : (m : Sim) (a : ℕ) (signed : Bool) → AreWords m.mem → IsWord (ldb m a signed)
unfolding ldb
ldb-lt m a signed h =
    if_both IsWord (signed && has_bits byte 0x80) (bit_or-lt 16 _ _ low (omega arith)) low
  where
    w : ℕ
    w = m.mem (word_index a)

    byte : ℕ
    byte = if has_bits a 1 then bit_and (w / 2 ^ 8) 0xff else bit_and w 0xff

    low : IsWord byte
    low =
        if_both IsWord (has_bits a 1)
          (bit_and-lt 16 _ _ (omega (arith, h (word_index a))) (omega arith))
          (bit_and-lt 16 _ _ (h (word_index a)) (omega arith))

-- What a computation returns, if it returns, is a word.
abbrev pub ReturnsWord : Result Undefined ℕ → Type 0
ReturnsWord (ok v) = IsWord v
ReturnsWord (err e) = Unit

flag-lt : (b : Bool) → IsWord (if b then 1 else 0)
flag-lt b = if_both IsWord b (omega arith) (omega arith)

pub alu-ReturnsWord : (p : Profile) (f a b : ℕ) → IsWord a → IsWord b → ReturnsWord (alu p f a b)
unfolding alu
alu-ReturnsWord p f a b ha hb = if_both ReturnsWord (f == 0) (omega arith) (
    if_both ReturnsWord (f == 1) (low_bits-lt 16 _) (
      if_both ReturnsWord (f == 2) (if_both IsWord p.nano (flag-lt _) (flag-lt _)) (
        if_both ReturnsWord (f == 3) (flag-lt _) (
          if_both ReturnsWord (f == 4) (bit_and-lt 16 a b ha hb) (
            if_both ReturnsWord (f == 5) (bit_or-lt 16 a b ha hb) (
              if_both ReturnsWord (f == 6) (bit_xor-lt 16 a b ha hb)
                (if_both ReturnsWord p.full (omega arith) tt)))))))

pub shift_right-lt : (signed : Bool) (n v : ℕ) → IsWord v → IsWord (shift_right signed n v)
unfolding shift_right
shift_right-lt signed zero v h = h
shift_right-lt signed (suc n) v h = shift_right-lt signed n _ (
    bit_or-lt 16 _ _ (omega arith)
      (if_both IsWord (signed && has_bits v 0x8000) (omega arith) (omega arith)))

pub funnel_left-lt : (v e : ℕ) → IsWord (funnel_left v e)
unfolding funnel_left
funnel_left-lt v e = omega arith

pub funnel_right-lt : (v e : ℕ) → IsWord v → IsWord (funnel_right v e)
unfolding funnel_right
funnel_right-lt v e h = bit_or-lt 16 _ _ (omega arith) (omega (arith, bit_and_mask 1 e))
