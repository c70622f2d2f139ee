-- ===== src/Asm/Encode/Fields.antt =====
-- tools/riscc_asm.py: the encoded words as sums of their fields, and the fields that the
-- simulator of tools/riscc_sim.py finds in them.
use riscc.Prelude.{
  ℕ, ◌+◌, ◌*◌, ◌/◌, ◌%◌, ◌^◌, ◌<◌, ◌≤◌, ◌≡◌, ◌≢◌, ◌∙◌, ap, refl, Bool, true, false, arith,
  if◌then◌else◌, bit_and, bit_or,
}
use riscc.Prelude.Bits.{bit_and_split, bit_and_mask, bit_and-zero, bit_or_above, bit_or_fields_rev}
use riscc.Prelude.Int.{ℤ}
use riscc.Prelude.Result.{ok}
use riscc.Sim.State.{sx8}
use riscc.Sim.Memory.Bytes.{byte_sign}
use riscc.Sim.Exec.{branch_rel}
use riscc.Asm.Encode.{enc_i8, enc_mem_i, enc_i, enc_r, enc_branch}

pub even_mask : (v : ℕ) → bit_and v 0xfe ≡ v / 2 % 128 * 2
even_mask v = omega (arith, bit_and_split 1 v 0xfe, bit_and_mask 7 (v / 2), bit_and-zero (v % 2))

-- The numbers that fit the fields of an instruction.
pub enc_r_sum :
    (rd ra func rb : ℕ)
    → rd < 8
    → ra < 8
    → func < 32
    → rb < 8
    → enc_r rd ra func rb ≡ 0xc000 + rd * 2048 + ra * 256 + func * 8 + rb
unfolding enc_r
enc_r_sum rd ra func rb hd ha hf hb =
    rw
      (
        bit_or_above 14 0xc000 (rd * 2048) refl (omega arith),
        bit_or_above 11 (0xc000 + rd * 2048) (ra * 256) (omega arith) (omega arith),
        bit_or_above 8 (0xc000 + rd * 2048 + ra * 256) (func * 8) (omega arith) (omega arith),
        bit_or_above 3 (0xc000 + rd * 2048 + ra * 256 + func * 8) rb (omega arith) (omega arith),
      )
      refl

pub enc_i_sum :
    (rd op imm : ℕ)
    → rd < 8
    → op < 8
    → imm < 256
    → enc_i rd op imm ≡ 0x8000 + rd * 2048 + op * 256 + imm
unfolding enc_i
enc_i_sum rd op imm hd ho hi =
    rw
      (
        bit_or_above 14 0x8000 (rd * 2048) refl (omega arith),
        bit_or_above 11 (0x8000 + rd * 2048) (op * 256) (omega arith) (omega arith),
        bit_or_above 8 (0x8000 + rd * 2048 + op * 256) imm (omega arith) (omega arith),
      )
      refl

pub enc_mem_i_sum :
    (store : Bool) (rd ra imm : ℕ)
    → rd < 8
    → ra < 8
    → imm < 256
    → enc_mem_i store rd ra imm
      ≡ 0x4000 + rd * 2048 + ra * 256 + imm / 2 * 2 + (if store then 1 else 0)
unfolding enc_mem_i
enc_mem_i_sum store rd ra imm hd ha hi =
    rw
      (
        even_mask imm,
        bit_or_above 14 0x4000 (rd * 2048) refl (omega arith),
        bit_or_above 11 (0x4000 + rd * 2048) (ra * 256) (omega arith) (omega arith),
        bit_or_above 8 (0x4000 + rd * 2048 + ra * 256) (imm / 2 % 128 * 2) (omega arith)
            (omega arith),
      )
      (bit_or_above 1 _ _ (omega arith) (flag store) ∙ omega arith)
  where
    flag : (b : Bool) → (if b then 1 else 0) < 2
    flag true = omega arith
    flag false = omega arith

-- The branch field is the displacement with its sign bit moved to the end.
branch_field :
    (rel : ℕ)
    → rel < 256
    → bit_or (bit_and (rel * 2) 0xfe) (rel / 2 ^ 7) ≡ rel * 2 % 256 + rel / 128
branch_field rel h =
    rw (even_mask (rel * 2)) (bit_or_above 1 _ _ (omega arith) (omega arith) ∙ omega arith)

pub enc_branch_sum :
    (cc rel : ℕ)
    → cc < 8
    → rel < 256
    → enc_branch cc rel ≡ 0x8000 + cc * 2048 + 7 * 256 + (rel * 2 % 256 + rel / 128)
enc_branch_sum cc rel hc hr = as_enc_i ∙ enc_i_sum cc 7 _ hc (omega arith) (omega arith)
  where
    field_of : bit_and rel 0xff ≡ rel
    field_of = bit_and_mask 8 rel ∙ omega arith

    as_enc_i : enc_branch cc rel ≡ enc_i cc 7 (rel * 2 % 256 + rel / 128)
    as_enc_i = unfold enc_branch in rw field_of (ap (enc_i cc 7) (branch_field rel hr))

-- Only the words below 0x4000 can be long instructions.
pub not_long : (w : ℕ) → 2 ^ 14 ≤ w → w < 2 ^ 16 → bit_and w 0xc7ff ≢ 0x0034
not_long w lo hi e = omega (arith, bit_and_split 14 w 0xc7ff, bit_and_mask 2 (w / 2 ^ 14))

-- What the simulator reads from an encoded displacement is the displacement.
pub branch_rel-field : (rel : ℕ) → rel < 256 → branch_rel (rel * 2 % 256 + rel / 128) ≡ sx8 rel
branch_rel-field rel h = unfold branch_rel in ap sx8 back
  where
    imm : ℕ
    imm = rel * 2 % 256 + rel / 128

    back : bit_or (imm / 2) (bit_and imm 1 * 2 ^ 7) ≡ rel
    back = ground (arith, bit_and_mask 1 imm, bit_or_fields_rev 7 (imm % 2) (imm / 2) (omega arith))

-- What `enc_i8` makes of a value that it accepts is a byte, from which the simulator's `sx8` gives
-- the value back.
pub enc_i8_lem : (v : ℤ) {b : ℕ} → enc_i8 v ≡ ok b → (b < 256) × (sx8 b ≡ v)
unfolding enc_i8 sx8
enc_i8_lem v {b} h = (byte, ground (arith, byte_sign b byte))
  where
    byte : b < 256
    byte = ground arith
