-- ===== src/Fuzz/Rc16/Operands.antt =====
-- tools/riscc_fuzz.py, `Gen.op_mdu`: the operands of the drawn DIVU, for the assembler's encoding and
-- the simulator's execution of it.
use mathlib.Core.Path.{subst}
use riscc.Prelude.{
  ℕ, Bool, ◌+◌, ◌*◌, ◌^◌, ◌<◌, ◌≤◌, ◌≡◌, ◌≢◌, refl, ap, ◌∙◌, List, [], ◌∷◌, some, arith, true,
}
use riscc.Prelude.Lists.{length}
use riscc.Prelude.Result.{ok}
use riscc.Asm.Text.{Text, codes}
use riscc.Asm.Expr.{Python, Labels}
use riscc.Asm.Syntax.{RegOp, three}
use riscc.Asm.Encode.{enc_r, encode_word}
use riscc.Asm.Insn.{encode_insn}
use riscc.Sim.State.{Sim}
use riscc.Sim.Exec.{set_reg, exec_mdu, f5, ddd, bbb}
use riscc.Sim.Exec.Mdu.{divu_lem}
use riscc.Sim.Register.{exec_register, execute}
use riscc.Toolchain.Decode.{enc_r-fields, execute-enc_r}
use riscc.Fuzz.Format.{cat}
use riscc.Fuzz.Config.{Config}
use riscc.Fuzz.Random.{Random, GenState, AllBelow, Distinct, reg_name}
use riscc.Fuzz.Lines.{ldi16_line, pick}
use riscc.Fuzz.Rc16.{op_divu}
use riscc.Fuzz.Rc16.Registers.{three-encode, lines_of}

-- The first three numbers of a sample of three.
three_picks :
    (xs : List ℕ)
    → length xs ≡ 3
    → AllBelow 6 xs
    → Distinct xs
    → (1 ≤ pick xs 0)
      × (pick xs 0 ≤ 6)
      × (1 ≤ pick xs 1)
      × (pick xs 1 ≤ 6)
      × (1 ≤ pick xs 2)
      × (pick xs 2 ≤ 6)
      × (pick xs 0 ≢ pick xs 1)
      × (pick xs 0 ≢ pick xs 2)
      × (pick xs 1 ≢ pick xs 2)
three_picks [] h b d = omega arith
three_picks (x ∷ []) h b d = omega arith
three_picks (x ∷ y ∷ []) h b d = omega arith
three_picks (x ∷ y ∷ z ∷ xs) h b d = omega (arith, b, d)

-- The lines of a drawn DIVU.
abbrev divu_lines : ℕ → ℕ → ℕ → ℕ → ℕ → ℕ → List Text
divu_lines rd ra rb remainder quotient divisor =
    ldi16_line rd remainder
    ∷ ldi16_line ra quotient
    ∷ ldi16_line rb divisor
    ∷ cat (
        codes "    DIVU  " ∷ reg_name rd ∷ codes ", " ∷ reg_name ra ∷ codes ", " ∷ reg_name rb ∷ [])
    ∷ []

-- The machine after the three LDI16.
abbrev loaded : Sim → ℕ → ℕ → ℕ → ℕ → ℕ → ℕ → Sim
loaded m rd ra rb remainder quotient divisor =
    set_reg (set_reg (set_reg m rd remainder) ra quotient) rb divisor

-- The lines load three registers and divide, and the simulator executes the division.
pub record DividesDefined (m : Sim) (pc_next : ℕ) (lines : List Text) : Type 0 where
  pub rd : ℕ
  pub ra : ℕ
  pub rb : ℕ
  pub remainder : ℕ
  pub quotient : ℕ
  pub divisor : ℕ
  pub lines_are : lines ≡ divu_lines rd ra rb remainder quotient divisor
  pub registers : (1 ≤ rd) × (rd ≤ 6) × (1 ≤ ra) × (ra ≤ 6) × (1 ≤ rb) × (rb ≤ 6)
  pub distinct : (rd ≢ ra) × (rd ≢ rb) × (ra ≢ rb)
  pub values : (remainder < 2 ^ 16) × (quotient < 2 ^ 16) × (divisor < 2 ^ 16)
  pub word : ℕ
  pub is_word : word < 2 ^ 16
  pub assembles :
      (py : Python) (labels : Labels) (pc : ℕ) (iflush : Bool)
      → encode_insn py
          (reg_name rd ∷ reg_name ra ∷ reg_name rb ∷ [])
          labels
          (three RegOp.divu)
          pc
          iflush
        ≡ ok (encode_word word)
  pub after : Sim
  pub executes :
      execute (loaded m rd ra rb remainder quotient divisor) word pc_next ≡ ok (after, pc_next)
  pub divides : after.r ra * divisor + after.r rd ≡ remainder * 2 ^ 16 + quotient
  pub rest : after.r rd < divisor

module _ (m : Sim) (pc_next : ℕ) (has_mdu : m.mdu ≡ true) where
  register_mdu : (n : Sim) (w : ℕ) → f5 w ≡ 0x10 → exec_register n w pc_next ≡ exec_mdu n w pc_next
  unfolding exec_register
  register_mdu n w h = rw h refl

  divu_executes :
      (rd ra rb remainder quotient divisor : ℕ)
      → (1 ≤ rd)
        × (rd ≤ 6)
        × (1 ≤ ra)
        × (ra ≤ 6)
        × (1 ≤ rb)
        × (rb ≤ 6)
        × (rd ≢ ra)
        × (rd ≢ rb)
        × (ra ≢ rb)
      → remainder < divisor
      → quotient < 2 ^ 16
      → divisor < 2 ^ 16
      → DividesDefined m pc_next (divu_lines rd ra rb remainder quotient divisor)
  divu_executes rd ra rb remainder quotient divisor h below hq hd =
      let w = enc_r rd ra 0x10 rb in
      let n = loaded m rd ra rb remainder quotient divisor in
      let ld : rd < 8 = omega (arith, h) in
      let la : ra < 8 = omega (arith, h) in
      let lb : rb < 8 = omega (arith, h) in
      let f = enc_r-fields rd ra 0x10 rb ld la (omega arith) lb in
      let vd : n.r rd ≡ remainder = ground (arith, h) in
      let va : n.r ra ≡ quotient = ground (arith, h) in
      let vb : n.r rb ≡ divisor = ground (arith, h) in
      let done =
        divu_lem n w pc_next has_mdu (f.2) (omega (arith, f, h)) (omega (arith, f, h))
          (omega (arith, f, h)) (rw (f.1) (omega (arith, va, hq)))
          (rw (f.0, f.3) (omega (arith, vd, vb, below))) in
      let remainder_of : done.0.r (ddd w) ≡ done.0.r rd = ap (done.0.r) (f.0) in
      let divisor_of : n.r (bbb w) ≡ divisor = ap (n.r) (f.3) ∙ vb in
      record {
        rd = rd;
        ra = ra;
        rb = rb;
        remainder = remainder;
        quotient = quotient;
        divisor = divisor;
        lines_are = refl;
        registers = omega (arith, h);
        distinct = (h.6, h.7, h.8);
        values = omega (arith, below, hq, hd);
        word = w;
        is_word = f.4;
        assembles =
            λ py labels pc iflush. three-encode py labels pc iflush RegOp.divu rd ra rb ld la lb;
        after = done.0;
        executes =
            execute-enc_r rd ra 0x10 rb ld la (omega arith) lb n pc_next
            ∙ register_mdu n w (f.2)
            ∙ done.1;
        divides = cc;
        rest = omega (arith, done.3, remainder_of, divisor_of);
      }

  -- On a machine with the divider, the lines that `op_divu` draws load three values of 16 bits into
  -- distinct registers of r1 to r6 and divide; the assembler makes a 16-bit word of the DIVU on these
  -- registers, and the simulator executes that word on the loaded machine without raising: the
  -- quotient times the divisor plus the remainder is the 32-bit dividend, and the remainder is below
  -- the divisor.
  pub op_divu-DividesDefined :
      (R : Random) (cfg : Config) (s s' : GenState (R.Source)) (lines : List Text)
      → op_divu R cfg s ≡ some (lines, s')
      → DividesDefined m pc_next lines
  unfolding op_divu
  op_divu-DividesDefined R cfg s s' lines h =
      let below6 = R.sample-AllBelow 6 3 (s.rng) (omega arith) in
      let xs = (R.sample 6 3 (s.rng)).0 in
      let picks =
        three_picks xs (R.sample-length 6 3 (s.rng) (omega arith)) below6
          (R.sample-Distinct 6 3 (s.rng) (omega arith)) in
      let s1 = (R.sample 6 3 (s.rng)).1 in
      let hd = R.randrange-lt 0xffff s1 (omega arith) in
      let divisor = 1 + (R.randrange 0xffff s1).0 in
      let s2 = (R.randrange 0xffff s1).1 in
      let hr = R.randrange-lt divisor s2 (omega arith) in
      let remainder = (R.randrange divisor s2).0 in
      let s3 = (R.randrange divisor s2).1 in
      let hq = R.randrange-lt 0x10000 s3 (omega arith) in
      let quotient = 0 + (R.randrange 0x10000 s3).0 in
      let drawn =
        divu_executes (pick xs 0) (pick xs 1) (pick xs 2) remainder quotient divisor picks hr
          (omega (arith, hq)) (omega (arith, hd)) in
      subst (DividesDefined m pc_next) (ap lines_of h) drawn
