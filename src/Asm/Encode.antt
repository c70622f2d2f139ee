-- ===== src/Asm/Encode.antt =====
-- tools/riscc_asm.py: the range checks, the field encoders, `parse_mem`, `code_addr` and
-- `insn_size`. A byte string is a list of numbers.
pub mod Fields
use riscc.Prelude.{
  ℕ, ◌*◌, ◌/◌, ◌^◌, Bool, ◌&&◌, List, [], ◌∷◌, ◌++◌, Option, none, some, ◌==◌, if◌then◌else◌,
  bit_and, bit_or,
}
use riscc.Prelude.Int.{ℤ, pos, negsuc, leb_ℤ, low_bits, pos_part}
use riscc.Prelude.Result.{Result, ok, err}
use riscc.Asm.Text.{Text, strip, starts_with, ends_with, match_ident}
use riscc.Asm.Expr.{AsmError, out_of_u8, out_of_i8, invalid_mem, misaligned, address_range}
use riscc.Asm.Syntax.{Mnemonic, jal16, jmp16, ldi16}

unfoldable pub enc_u8 : ℤ → Result AsmError ℕ
enc_u8 value =
    if leb_ℤ (pos 0) value && leb_ℤ value (pos 0xff) then ok (pos_part value) else err out_of_u8

unfoldable pub enc_i8 : ℤ → Result AsmError ℕ
enc_i8 value =
    if leb_ℤ (negsuc 127) value && leb_ℤ value (pos 127)
    then ok (low_bits 8 value)
    else err out_of_i8

unfoldable pub encode_word : ℕ → List ℕ
encode_word word = bit_and word 0xff ∷ bit_and (word / 2 ^ 8) 0xff ∷ []

-- `value & 1`
abbrev pub is_odd : ℤ → Bool
is_odd value = low_bits 1 value == 1

unfoldable pub code_addr : ℤ → Result AsmError ℕ
code_addr value =
    if is_odd value
    then err misaligned
    else if leb_ℤ (pos 0) value && leb_ℤ value (pos 0xffff)
    then ok (pos_part value)
    else err address_range

unfoldable pub enc_mem_i : Bool → ℕ → ℕ → ℕ → ℕ
enc_mem_i store rd ra imm8 =
    bit_or (bit_or (bit_or (bit_or (1 * 2 ^ 14) (rd * 2 ^ 11)) (ra * 2 ^ 8)) (bit_and imm8 0xfe))
      (if store then 1 else 0)

unfoldable pub enc_i : ℕ → ℕ → ℕ → ℕ
enc_i rd op imm8 = bit_or (bit_or (bit_or (2 * 2 ^ 14) (rd * 2 ^ 11)) (op * 2 ^ 8)) imm8

unfoldable pub enc_r : ℕ → ℕ → ℕ → ℕ → ℕ
enc_r rd ra func rb =
    bit_or (bit_or (bit_or (bit_or (3 * 2 ^ 14) (rd * 2 ^ 11)) (ra * 2 ^ 8)) (func * 2 ^ 3)) rb

unfoldable pub enc_branch : ℕ → ℕ → ℕ
unfolding enc_i
enc_branch cc rel =
    let rel8 = bit_and rel 0xff in
    let encoded = bit_or (bit_and (rel8 * 2) 0xfe) (rel8 / 2 ^ 7) in enc_i cc 7 encoded

unfoldable pub enc_long : ℕ → ℕ → List ℕ
unfolding encode_word
enc_long rd imm16 = encode_word (bit_or (rd * 2 ^ 11) 0x0034) ++ encode_word imm16

-- `text[1:-1]` of a text that begins and ends with a bracket.
abbrev pub drop_last : Text → Text
drop_last [] = []
drop_last (c ∷ []) = []
drop_last (c ∷ d ∷ s) = c ∷ drop_last (d ∷ s)

abbrev pub inside : Text → Text
inside [] = []
inside (c ∷ s) = drop_last s

-- The base and what follows it, `+` dropped and `-` kept.
abbrev pub mem_parts : Option (Text × Text) → Result AsmError (List Text)
mem_parts none = err invalid_mem
mem_parts (some (base, [])) = ok (base ∷ [])
mem_parts (some (base, c ∷ rest)) =
    if c == b'+'
    then ok (base ∷ strip rest ∷ [])
    else if c == b'-'
    then ok (base ∷ (c ∷ rest) ∷ [])
    else err invalid_mem

abbrev strip_second : Option (Text × Text) → Option (Text × Text)
strip_second none = none
strip_second (some (base, rest)) = some (base, strip rest)

unfoldable pub parse_mem : Text → Result AsmError (List Text)
unfolding strip match_ident ends_with
parse_mem token =
    let text = strip token in
    if starts_with b'[' text && ends_with b']' text
    then mem_parts (strip_second (match_ident (strip (inside text))))
    else err invalid_mem

-- The long instructions take four bytes, all others two.
unfoldable pub insn_size : Mnemonic → ℕ
insn_size ldi16 = 4
insn_size jmp16 = 4
insn_size jal16 = 4
insn_size _ = 2
