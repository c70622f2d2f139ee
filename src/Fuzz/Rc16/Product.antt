-- ===== src/Fuzz/Rc16/Product.antt =====
-- tools/riscc_fuzz.py, `Gen.op_mulhu`: the operands of the drawn MULHU, for the assembler's encoding and
-- the simulator's execution of it.
use mathlib.Core.Path.{subst}
use riscc.Prelude.{
  ℕ, Bool, ◌+◌, ◌*◌, ◌^◌, ◌<◌, ◌≤◌, ◌≡◌, ◌≢◌, refl, ap, ◌∙◌, List, [], ◌∷◌, ◌++◌, some, arith, true,
  ◌==◌, if◌then◌else◌,
}
use riscc.Prelude.Lists.{length}
use riscc.Prelude.Result.{ok}
use riscc.Asm.Text.{Text, codes}
use riscc.Asm.Expr.{Python, Labels}
use riscc.Asm.Syntax.{RegOp, three}
use riscc.Asm.Encode.{enc_r, encode_word}
use riscc.Asm.Insn.{encode_insn}
use riscc.Sim.State.{Sim}
use riscc.Sim.Exec.{set_reg, exec_mdu, f5, ddd, aaa, bbb}
use riscc.Sim.Exec.Mdu.{mulhu_lem}
use riscc.Sim.Register.{exec_register, execute}
use riscc.Toolchain.Decode.{enc_r-fields, execute-enc_r}
use riscc.Fuzz.Format.{cat}
use riscc.Fuzz.Config.{Config}
use riscc.Fuzz.Random.{Random, GenState, AllBelow, Distinct, reg_name}
use riscc.Fuzz.Lines.{ldi16_line, pick}
use riscc.Fuzz.Rc16.{op_mulhu}
use riscc.Fuzz.Rc16.Registers.{three-encode, lines_of}

two_picks :
    (xs : List ℕ)
    → length xs ≡ 2
    → AllBelow 6 xs
    → Distinct xs
    → (1 ≤ pick xs 0)
      × (pick xs 0 ≤ 6)
      × (1 ≤ pick xs 1)
      × (pick xs 1 ≤ 6)
      × (pick xs 0 ≢ pick xs 1)
two_picks [] h b d = omega arith
two_picks (x ∷ []) h b d = omega arith
two_picks (x ∷ y ∷ xs) h b d = omega (arith, b, d)

-- The lines of a drawn MULHU. A source that is the first operand is not loaded again.
abbrev mulhu_lines : ℕ → ℕ → ℕ → ℕ → ℕ → List Text
mulhu_lines rd ra source high value =
    ldi16_line ra high
    ∷ ((if source == ra then [] else ldi16_line source value ∷ [])
        ++ (cat (
              codes "    MULHU "
              ∷ reg_name rd
              ∷ codes ", "
              ∷ reg_name ra
              ∷ codes ", "
              ∷ reg_name source
              ∷ [])
            ∷ []))

-- The machine after the LDI16, and the second factor.
abbrev loaded : Sim → ℕ → ℕ → ℕ → ℕ → Sim
loaded m ra source high value =
    if source == ra then set_reg m ra high else set_reg (set_reg m ra high) source value

abbrev factor : ℕ → ℕ → ℕ → ℕ → ℕ
factor ra source high value = if source == ra then high else value

-- The lines load the factors and multiply, and the simulator executes the multiplication.
pub record MultipliesDefined (m : Sim) (pc_next : ℕ) (lines : List Text) : Type 0 where
  pub rd : ℕ
  pub ra : ℕ
  pub source : ℕ
  pub high : ℕ
  pub value : ℕ
  pub lines_are : lines ≡ mulhu_lines rd ra source high value
  pub registers : (1 ≤ rd) × (rd ≤ 6) × (1 ≤ ra) × (ra ≤ 6) × (1 ≤ source) × (source ≤ 6)
  pub distinct : rd ≢ ra
  pub values : (high < 2 ^ 16) × (value < 2 ^ 16)
  pub word : ℕ
  pub is_word : word < 2 ^ 16
  pub assembles :
      (py : Python) (labels : Labels) (pc : ℕ) (iflush : Bool)
      → encode_insn py
          (reg_name rd ∷ reg_name ra ∷ reg_name source ∷ [])
          labels
          (three RegOp.mulhu)
          pc
          iflush
        ≡ ok (encode_word word)
  pub after : Sim
  pub executes : execute (loaded m ra source high value) word pc_next ≡ ok (after, pc_next)
  pub product : after.r ra * 2 ^ 16 + after.r rd ≡ high * factor ra source high value
  pub others : (j : ℕ) → j ≢ rd → j ≢ ra → after.r j ≡ (loaded m ra source high value).r j

loaded_first : (m : Sim) (ra source high value : ℕ) → (loaded m ra source high value).r ra ≡ high
loaded_first m ra source high value = ground arith

loaded_source :
    (m : Sim) (ra source high value : ℕ)
    → (loaded m ra source high value).r source ≡ factor ra source high value
loaded_source m ra source high value = ground arith

module _ (m : Sim) (pc_next : ℕ) (has_mdu : m.mdu ≡ true) where
  register_mdu : (n : Sim) (w : ℕ) → f5 w ≡ 0x14 → exec_register n w pc_next ≡ exec_mdu n w pc_next
  unfolding exec_register
  register_mdu n w h = rw h refl

  mulhu_executes :
      (rd ra source high value : ℕ)
      → (1 ≤ rd) × (rd ≤ 6) × (1 ≤ ra) × (ra ≤ 6) × (1 ≤ source) × (source ≤ 6)
      → rd ≢ ra
      → high < 2 ^ 16
      → value < 2 ^ 16
      → MultipliesDefined m pc_next (mulhu_lines rd ra source high value)
  mulhu_executes rd ra source high value h distinct hh hv =
      let w = enc_r rd ra 0x14 source in
      let n = loaded m ra source high value in
      let ld : rd < 8 = omega (arith, h) in
      let la : ra < 8 = omega (arith, h) in
      let ls : source < 8 = omega (arith, h) in
      let f = enc_r-fields rd ra 0x14 source ld la (omega arith) ls in
      let has : n.mdu ≡ true = ground (arith, has_mdu) in
      let va : n.r ra ≡ high = loaded_first m ra source high value in
      let vs : n.r source ≡ factor ra source high value = loaded_source m ra source high value in
      let fits : factor ra source high value < 2 ^ 16 = ground (arith, hh, hv) in
      let first : n.r (aaa w) ≡ high = ap (n.r) (f.1) ∙ va in
      let second : n.r (bbb w) ≡ factor ra source high value = ap (n.r) (f.3) ∙ vs in
      let done =
        mulhu_lem n w pc_next has (f.2) (omega (arith, f, distinct)) (omega (arith, first, hh))
          (omega (arith, second, fits)) in
      let high_of : done.0.r (aaa w) ≡ done.0.r ra = ap (done.0.r) (f.1) in
      let low_of : done.0.r (ddd w) ≡ done.0.r rd = ap (done.0.r) (f.0) in
      record {
        rd = rd;
        ra = ra;
        source = source;
        high = high;
        value = value;
        lines_are = refl;
        registers = h;
        distinct = distinct;
        values = (hh, hv);
        word = w;
        is_word = f.4;
        assembles = λ py labels pc iflush.
            three-encode py labels pc iflush RegOp.mulhu rd ra source ld la ls;
        after = done.0;
        executes =
            execute-enc_r rd ra 0x14 source ld la (omega arith) ls n pc_next
            ∙ register_mdu n w (f.2)
            ∙ done.1;
        product = cc;
        others = λ j p q. done.3 j (λ e. p (e ∙ f.0)) (λ e. q (e ∙ f.1));
      }

  -- On a machine with the multiplier, the lines that `op_mulhu` draws load 16-bit factors into registers
  -- of r1 to r6, the second only if it is not in the first one's register, and multiply; the assembler
  -- makes a 16-bit word of the MULHU on these registers, whose two results are distinct, and the
  -- simulator executes that word on the loaded machine without raising: the two result registers hold
  -- the 32-bit product of the factors, and the other registers are kept.
  pub op_mulhu-MultipliesDefined :
      (R : Random) (cfg : Config) (s s' : GenState (R.Source)) (lines : List Text)
      → op_mulhu R cfg s ≡ some (lines, s')
      → MultipliesDefined m pc_next lines
  unfolding op_mulhu
  op_mulhu-MultipliesDefined R cfg s s' lines h =
      let xs = (R.sample 6 2 (s.rng)).0 in
      let picks =
        two_picks xs (R.sample-length 6 2 (s.rng) (omega arith))
          (R.sample-AllBelow 6 2 (s.rng) (omega arith))
          (R.sample-Distinct 6 2 (s.rng) (omega arith)) in
      let s1 = (R.sample 6 2 (s.rng)).1 in
      let hs = R.randrange-lt 6 s1 (omega arith) in
      let source = 1 + (R.randrange 6 s1).0 in
      let s2 = (R.randrange 6 s1).1 in
      let hh = R.randrange-lt 0x10000 s2 (omega arith) in
      let high = 0 + (R.randrange 0x10000 s2).0 in
      let s3 = (R.randrange 0x10000 s2).1 in
      let hv = R.randrange-lt 0x10000 s3 (omega arith) in
      let value = 0 + (R.randrange 0x10000 s3).0 in
      let drawn =
        mulhu_executes (pick xs 0) (pick xs 1) source high value (omega (arith, picks, hs))
          (picks.4) (omega (arith, hh)) (omega (arith, hv)) in
      subst (MultipliesDefined m pc_next) (ap lines_of h) drawn
