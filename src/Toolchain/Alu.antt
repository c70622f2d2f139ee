-- ===== src/Toolchain/Alu.antt =====
-- tools/riscc_asm.py and tools/riscc_sim.py: an assembled three-register instruction computes what
-- its mnemonic says.
use riscc.Prelude.{ℕ, ◌<◌, ◌^◌, ◌≡◌, ◌∙◌, refl, arith, ◌==◌, List, not, lt→ltb}
use riscc.Prelude.Lists.{length}
use riscc.Prelude.Result.{raise_if-ok, ok, ◌>>=◌, bind-ok}
use riscc.Sim.State.{Sim}
use riscc.Sim.Alu.{alu}
use riscc.Sim.Alu.Words.{AluOp, alu_code, alu_result, alu-eq-result}
use riscc.Sim.Bounds.Values.{AreWords}
use riscc.Sim.Exec.{set_reg, ddd, aaa, bbb, f5}
use riscc.Sim.Register.{exec_register, execute}
use riscc.Asm.Text.{Text}
use riscc.Asm.Expr.{Python, Labels, operand_count}
use riscc.Asm.Syntax.{RegOp, reg, reg_func}
use riscc.Asm.Encode.{enc_r, encode_word}
use riscc.Asm.Insn.{encode_three, operand}
use riscc.Toolchain.Decode.{enc_r-fields, execute-enc_r}
use riscc.Toolchain.Inversion.{reg-lt}

-- The mnemonic of each operation of the simulator's ALU.
abbrev pub reg_op : AluOp → RegOp
reg_op AluOp.add = RegOp.add
reg_op AluOp.sub = RegOp.sub
reg_op AluOp.slt = RegOp.slt
reg_op AluOp.sltu = RegOp.sltu
reg_op AluOp.and_ = RegOp.and_
reg_op AluOp.or_ = RegOp.or_
reg_op AluOp.xor_ = RegOp.xor_
reg_op AluOp.mul = RegOp.mul

func-eq-code : (op : AluOp) → reg_func (reg_op op) ≡ alu_code op
func-eq-code AluOp.add = refl
func-eq-code AluOp.sub = refl
func-eq-code AluOp.slt = refl
func-eq-code AluOp.sltu = refl
func-eq-code AluOp.and_ = refl
func-eq-code AluOp.or_ = refl
func-eq-code AluOp.xor_ = refl
func-eq-code AluOp.mul = refl

code-lt : (op : AluOp) → alu_code op < 8
code-lt AluOp.add = omega arith
code-lt AluOp.sub = omega arith
code-lt AluOp.slt = omega arith
code-lt AluOp.sltu = omega arith
code-lt AluOp.and_ = omega arith
code-lt AluOp.or_ = omega arith
code-lt AluOp.xor_ = omega arith
code-lt AluOp.mul = omega arith

-- The registers of an accepted instruction, and its word.
pub record Encodes (operands : List Text) (func : ℕ) (bs : List ℕ) : Type 0 where
  pub rd : ℕ
  pub ra : ℕ
  pub rb : ℕ
  pub rd_of : reg (operand 0 operands) ≡ ok rd
  pub ra_of : reg (operand 1 operands) ≡ ok ra
  pub rb_of : reg (operand 2 operands) ≡ ok rb
  pub bytes : bs ≡ encode_word (enc_r rd ra func rb)

pub encode_three-Encodes :
    (py : Python) (operands : List Text) (labels : Labels) (op : RegOp) {bs : List ℕ}
    → encode_three py operands labels op ≡ ok bs
    → Encodes operands (reg_func op) bs
unfolding encode_three
encode_three-Encodes py operands labels op {bs} h =
    let g = raise_if-ok (not (length operands == 3)) operand_count _ h in
    let (rd, e0, h0) = bind-ok (reg (operand 0 operands)) _ g.1 in
    let (ra, e1, h1) = bind-ok (reg (operand 1 operands)) _ h0 in
    let (rb, e2, h2) = bind-ok (reg (operand 2 operands)) _ h1 in
    record { rd = rd; ra = ra; rb = rb; rd_of = e0; ra_of = e1; rb_of = e2; bytes = cc }

module _ (m : Sim) (pc_next : ℕ) where
  register_alu :
      (op : AluOp) (w : ℕ)
      → f5 w ≡ alu_code op
      → exec_register m w pc_next ≡ (
          alu m.profile (alu_code op) (m.r (aaa w)) (m.r (bbb w)) >>= λ v.
          ok (set_reg m (ddd w) v, pc_next))
  unfolding exec_register
  register_alu op w h = rw (h, lt→ltb _ _ (code-lt op))

  -- If the assembler accepts an ADD, SUB, SLT, SLTU, AND, OR, XOR or MUL, its bytes are a
  -- 16-bit word that the simulator, on 16-bit registers, executes as the named operation on the three
  -- registers that the operands name; SLT is unsigned in Nano, and MUL outside the full profile is
  -- undefined.
  pub three_executes :
      (py : Python) (operands : List Text) (labels : Labels) (op : AluOp) {bs : List ℕ}
      → AreWords m.r
      → encode_three py operands labels (reg_op op) ≡ ok bs
      → (e : Encodes operands (reg_func (reg_op op)) bs) × (w : ℕ) × (w < 2 ^ 16)
        × (bs ≡ encode_word w)
        × (execute m w pc_next ≡ (
            alu_result m.profile op (m.r e.ra) (m.r e.rb) >>= λ v. ok (set_reg m e.rd v, pc_next)))
  three_executes py operands labels op words h =
      let e = encode_three-Encodes py operands labels (reg_op op) h in
      let hd = reg-lt _ e.rd_of in
      let ha = reg-lt _ e.ra_of in
      let hb = reg-lt _ e.rb_of in
      let hf : reg_func (reg_op op) < 32 = omega (arith, func-eq-code op, code-lt op) in
      let w = enc_r e.rd e.ra (reg_func (reg_op op)) e.rb in
      let f = enc_r-fields e.rd e.ra (reg_func (reg_op op)) e.rb hd ha hf hb in
      (
        e,
        w,
        f.4,
        e.bytes,
        execute-enc_r e.rd e.ra (reg_func (reg_op op)) e.rb hd ha hf hb m pc_next
            ∙ register_alu op w (f.2 ∙ func-eq-code op)
            ∙ rw
                (
                  f.0,
                  f.1,
                  f.3,
                  alu-eq-result m.profile op (m.r e.ra) (m.r e.rb) (words e.ra) (words e.rb),
                )
                refl,
      )
