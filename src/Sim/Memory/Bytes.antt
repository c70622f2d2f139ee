-- ===== src/Sim/Memory/Bytes.antt =====
-- tools/riscc_sim.py: the byte lanes of `store_word` and `ldb`, as arithmetic on words.
use riscc.Prelude.{
  ℕ, ◌+◌, ◌*◌, ◌/◌, ◌%◌, ◌^◌, ◌<◌, ◌≡◌, ◌∙◌, ap, refl, true, false, arith, ◌==◌, leb, if◌then◌else◌,
  bit_and, bit_or,
}
use riscc.Prelude.Bits.{
  bit_and_split, bit_and_mask, bit_and-zero, bit_or_fields, bit_or_fields_rev, bit_and_power,
}
use riscc.Sim.State.{Sim, has_bits}
use riscc.Sim.Memory.{word_index, merge_bytes, ldb}

-- The two lanes of a word.
pub low_lane : (v : ℕ) → bit_and v 0xff ≡ v % 256
low_lane v = bit_and_mask 8 v

pub high_lane : (v : ℕ) → v < 2 ^ 16 → bit_and v 0xff00 ≡ v / 256 * 256
high_lane v h =
    omega (arith, bit_and_split 8 v 0xff00, bit_and_mask 8 (v / 256), bit_and-zero (v % 256))

pub join_lanes : (h l : ℕ) → l < 256 → bit_or (h * 256) l ≡ h * 256 + l
join_lanes h l p = bit_or_fields 8 h l p

pub join_lanes_rev : (h l : ℕ) → l < 256 → bit_or l (h * 256) ≡ h * 256 + l
join_lanes_rev h l p = bit_or_fields_rev 8 h l p

module _ (old val : ℕ) (ho : old < 2 ^ 16) (hv : val < 2 ^ 16) where
  -- Mask 1 replaces the low byte, mask 2 the high byte, and mask 3 the word.
  pub merge_low : merge_bytes old val 1 ≡ old / 256 * 256 + val % 256
  unfolding merge_bytes
  merge_low = rw (high_lane old ho, low_lane val) (join_lanes (old / 256) (val % 256) (omega arith))

  pub merge_high : merge_bytes old val 2 ≡ val / 256 * 256 + old % 256
  unfolding merge_bytes
  merge_high =
      rw (high_lane val hv, low_lane old) (join_lanes_rev (val / 256) (old % 256) (omega arith))

  pub merge_both : merge_bytes old val 3 ≡ val
  unfolding merge_bytes
  merge_both =
      rw
        (
          high_lane old ho,
          low_lane val,
          join_lanes (old / 256) (val % 256) (omega arith),
          low_lane (old / 256 * 256 + val % 256),
          high_lane val hv,
          join_lanes_rev (val / 256) ((old / 256 * 256 + val % 256) % 256) (omega arith),
        )
        (omega arith)

-- The sign bit of a byte.
pub byte_sign : (b : ℕ) → b < 256 → has_bits b 0x80 ≡ leb 128 b
byte_sign b h = ground (arith, bit_and_power 7 b)

pub word_sign : (v : ℕ) → v < 2 ^ 16 → has_bits v 0x8000 ≡ leb 0x8000 v
word_sign v h = ground (arith, bit_and_power 15 v)

pub odd_test : (a : ℕ) → has_bits a 1 ≡ (a % 2 == 1)
odd_test a = ground (arith, bit_and_mask 1 a)

-- The byte at an address: the high lane of its word at an odd one.
abbrev pub byte_at : Sim → ℕ → ℕ
byte_at m a = if a % 2 == 1 then m.mem (word_index a) / 256 % 256 else m.mem (word_index a) % 256

pub ldb-eq-byte_at : (m : Sim) (a : ℕ) → ldb m a false ≡ byte_at m a
unfolding ldb
ldb-eq-byte_at m a = ground (
  arith,
  bit_and_mask 1 a,
  low_lane (m.mem (word_index a) / 256),
  low_lane (m.mem (word_index a)),
)

byte_at-lt : (m : Sim) (a : ℕ) → byte_at m a < 256
byte_at-lt m a = ground arith

abbrev extended : ℕ → ℕ
extended b = if has_bits b 0x80 then bit_or b 0xff00 else b

extended_lem : (b : ℕ) → b < 256 → extended b ≡ (if leb 128 b then 0xff00 + b else b)
extended_lem b h = rw (byte_sign b h, join_lanes_rev 0xff b h) refl

-- A signed byte load gives the byte at the address, with 0xff00 added if it is 128 or more.
ldb_signed :
    (m : Sim) (a : ℕ)
    → ldb m a true ≡ (if leb 128 (byte_at m a) then 0xff00 + byte_at m a else byte_at m a)
ldb_signed m a =
    signed_of_unsigned
    ∙ ap extended (ldb-eq-byte_at m a)
    ∙ extended_lem (byte_at m a) (byte_at-lt m a)
  where
    signed_of_unsigned : ldb m a true ≡ extended (ldb m a false)
    signed_of_unsigned = unfold ldb in refl
