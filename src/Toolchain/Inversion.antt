-- ===== src/Toolchain/Inversion.antt =====
-- tools/riscc_asm.py: what a successful encoding says of its operands.
use riscc.Prelude.{ℕ, ◌<◌, ◌≡◌, arith, Option, none, some, [], ◌∷◌}
use riscc.Prelude.Result.{ok}
use riscc.Asm.Text.{Text, strip, upper}
use riscc.Asm.Expr.{AsmError, expected_reg, expected_sreg}
use riscc.Asm.Syntax.{found, numbered, reg, sreg}

numbered-lt : (letter : ℕ) (t : Text) {n : ℕ} → numbered letter t ≡ some n → n < 8
numbered-lt letter [] h = cc
numbered-lt letter (c ∷ []) h = cc
numbered-lt letter (c ∷ d ∷ []) h = ground arith
numbered-lt letter (c ∷ d ∷ e ∷ t) h = cc

found-ok : (e : AsmError) (o : Option ℕ) {n : ℕ} → found e o ≡ ok n → o ≡ some n
found-ok e none h = cc
found-ok e (some k) h = cc

-- A register's number has three bits.
pub reg-lt : (t : Text) {n : ℕ} → reg t ≡ ok n → n < 8
unfolding reg
reg-lt t h = numbered-lt b'R' (upper (strip t)) (found-ok expected_reg _ h)

pub sreg-lt : (t : Text) {n : ℕ} → sreg t ≡ ok n → n < 8
unfolding sreg
sreg-lt t h = numbered-lt b'S' (upper (strip t)) (found-ok expected_sreg _ h)
