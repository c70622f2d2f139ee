-- ===== src/Fuzz/Rc16/Registers.antt =====
-- tools/riscc_fuzz.py and tools/riscc_asm.py: an instruction on three registers that the generator names.
use riscc.Prelude.{ℕ, zero, suc, ◌<◌, ◌≡◌, refl, Bool, List, [], ◌∷◌, Option, none, some, arith}
use riscc.Prelude.Result.{ok}
use riscc.Asm.Text.{Text, strip, lstrip, upper}
use riscc.Asm.Expr.{Python, Labels}
use riscc.Asm.Syntax.{RegOp, three, reg, reg_func}
use riscc.Asm.Encode.{enc_r, encode_word}
use riscc.Asm.Insn.{encode_insn, encode_three}
use riscc.Fuzz.Format.{decimal, digits_from}
use riscc.Fuzz.Random.{GenState, reg_name}

reg-reg_name : (n : ℕ) → n < 8 → reg (reg_name n) ≡ ok n
unfolding reg strip upper decimal digits_from lstrip
reg-reg_name zero h = refl
reg-reg_name (suc zero) h = refl
reg-reg_name (suc (suc zero)) h = refl
reg-reg_name (suc (suc (suc zero))) h = refl
reg-reg_name (suc (suc (suc (suc zero)))) h = refl
reg-reg_name (suc (suc (suc (suc (suc zero))))) h = refl
reg-reg_name (suc (suc (suc (suc (suc (suc zero)))))) h = refl
reg-reg_name (suc (suc (suc (suc (suc (suc (suc zero))))))) h = refl
reg-reg_name (suc (suc (suc (suc (suc (suc (suc (suc n)))))))) h = absurd (omega (arith, h))

-- The assembler's word of an instruction on three numbered registers.
pub three-encode :
    (py : Python) (labels : Labels) (pc : ℕ) (iflush : Bool) (op : RegOp) (rd ra rb : ℕ)
    → rd < 8
    → ra < 8
    → rb < 8
    → encode_insn py (reg_name rd ∷ reg_name ra ∷ reg_name rb ∷ []) labels (three op) pc iflush
      ≡ ok (encode_word (enc_r rd ra (reg_func op) rb))
unfolding encode_insn encode_three
three-encode py labels pc iflush op rd ra rb hd ha hb =
    rw (reg-reg_name rd hd, reg-reg_name ra ha, reg-reg_name rb hb) refl

-- The lines of a method that returned.
abbrev pub lines_of : {S : Type 0} → Option (List Text × GenState S) → List Text
lines_of none = []
lines_of (some (lines, s)) = lines
