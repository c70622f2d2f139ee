-- ===== src/Toolchain/Access.antt =====
-- tools/riscc_asm.py and tools/riscc_sim.py: an assembled LD or ST reaches the address that its
-- operand names.
use riscc.Prelude.{
  ℕ, ◌*◌, ◌/◌, ◌%◌, ◌≡◌, ◌∙◌, ap, refl, Bool, true, false, not, arith, if◌then◌else◌, ◌==◌, List,
  bit_and,
}
use riscc.Prelude.Bits.{bit_and_mask}
use riscc.Prelude.Int.{ℤ, pos, ◌+ℤ◌, low_bits}
use riscc.Prelude.Lists.{length}
use riscc.Prelude.Result.{ok, bind-ok, raise_if-ok}
use riscc.Sim.State.{Sim, sx8, has_bits}
use riscc.Sim.Memory.{load_word, store_word}
use riscc.Sim.Exec.{ddd, aaa, imm8, set_reg, exec_mem}
use riscc.Sim.Register.{execute}
use riscc.Asm.Text.{Text}
use riscc.Asm.Expr.{Python, Labels, operand_count, odd_displacement}
use riscc.Asm.Syntax.{reg}
use riscc.Asm.Encode.{enc_i8, enc_mem_i, encode_word, is_odd, parse_mem}
use riscc.Asm.Encode.Fields.{enc_i8_lem, even_mask}
use riscc.Asm.Insn.{encode_mem, displacement, operand}
use riscc.Toolchain.Decode.{enc_mem_i-fields, execute-enc_mem_i}
use riscc.Toolchain.Inversion.{reg-lt}

-- A store writes the word in `rd`, a load reads the word to `rd`.
abbrev pub access : Sim → Bool → ℕ → ℕ → Sim
access m true rd addr = store_word m addr (m.r rd) 3
access m false rd addr = set_reg (load_word m addr).1 rd (load_word m addr).0

-- What an accepted LD or ST names, and its word.
pub record EncodesMem (py : Python) (operands : List Text) (labels : Labels) (store : Bool)
    (bs : List ℕ) : Type 0 where
  pub rd : ℕ
  pub mem : List Text
  pub ra : ℕ
  pub disp : ℤ
  pub field : ℕ
  pub rd_of : reg (operand 0 operands) ≡ ok rd
  pub mem_of : parse_mem (operand 1 operands) ≡ ok mem
  pub ra_of : reg (operand 0 mem) ≡ ok ra
  pub disp_of : displacement py labels mem ≡ ok disp
  pub even : is_odd disp ≡ false
  pub field_of : enc_i8 disp ≡ ok field
  pub bytes : bs ≡ encode_word (enc_mem_i store rd ra field)

pub encode_mem-EncodesMem :
    (py : Python) (operands : List Text) (labels : Labels) (store : Bool) {bs : List ℕ}
    → encode_mem py operands labels store ≡ ok bs
    → EncodesMem py operands labels store bs
unfolding encode_mem
encode_mem-EncodesMem py operands labels store {bs} h =
    let g = raise_if-ok (not (length operands == 2)) operand_count _ h in
    let (rd, e₁, h₁) = bind-ok (reg (operand 0 operands)) _ g.1 in
    let (mem, e₂, h₂) = bind-ok (parse_mem (operand 1 operands)) _ h₁ in
    let (ra, e₃, h₃) = bind-ok (reg (operand 0 mem)) _ h₂ in
    let (disp, e₄, h₄) = bind-ok (displacement py labels mem) _ h₃ in
    let k = raise_if-ok (is_odd disp) odd_displacement _ h₄ in
    let (field, e₅, h₅) = bind-ok (enc_i8 disp) _ k.1 in
    record {
      rd = rd;
      mem = mem;
      ra = ra;
      disp = disp;
      field = field;
      rd_of = e₁;
      mem_of = e₂;
      ra_of = e₃;
      disp_of = e₄;
      even = k.0;
      field_of = e₅;
      bytes = cc;
    }

-- An even displacement has an even field.
even_field :
    (disp : ℤ) {field : ℕ} → is_odd disp ≡ false → enc_i8 disp ≡ ok field → field / 2 * 2 ≡ field
unfolding enc_i8
even_field disp e h = ground arith

exec_mem-access :
    (m : Sim) (store : Bool) (w rd ra : ℕ) (disp : ℤ) (pc_next : ℕ)
    → ddd w ≡ rd
    → aaa w ≡ ra
    → sx8 (bit_and (imm8 w) 0xfe) ≡ disp
    → has_bits w 1 ≡ store
    → exec_mem m w pc_next ≡ ok (access m store rd (low_bits 16 (pos (m.r ra) +ℤ disp)), pc_next)
unfolding exec_mem
exec_mem-access m true w rd ra disp pc_next d a i s = rw (s, d, a, i) refl
exec_mem-access m false w rd ra disp pc_next d a i s = rw (s, d, a, i) refl

flag_lem : (w : ℕ) (store : Bool) → w % 2 ≡ (if store then 1 else 0) → has_bits w 1 ≡ store
flag_lem w store h = ground (arith, bit_and_mask 1 w)

-- If the assembler accepts an LD or ST, its bytes are a word that the simulator executes as a load
-- to, or a store of, the register that the first operand names, at the address that is the base
-- register plus the displacement, modulo 2 ^ 16.
pub mem_executes :
    (py : Python) (operands : List Text) (labels : Labels) (store : Bool) (m : Sim) (pc_next : ℕ)
    {bs : List ℕ}
    → encode_mem py operands labels store ≡ ok bs
    → (e : EncodesMem py operands labels store bs) × (w : ℕ) × (bs ≡ encode_word w)
      × (execute m w pc_next
          ≡ ok (access m store e.rd (low_bits 16 (pos (m.r e.ra) +ℤ e.disp)), pc_next))
mem_executes py operands labels store m pc_next h =
    let e = encode_mem-EncodesMem py operands labels store h in
    let hd = reg-lt _ e.rd_of in
    let ha = reg-lt _ e.ra_of in
    let (hf, back) = enc_i8_lem e.disp e.field_of in
    let w = enc_mem_i store e.rd e.ra e.field in
    let f = enc_mem_i-fields store e.rd e.ra e.field hd ha hf in
    let masked : bit_and (imm8 w) 0xfe ≡ e.field =
      omega (arith, even_mask (imm8 w), f.2, even_field e.disp e.even e.field_of) in
    (
      e,
      w,
      e.bytes,
      execute-enc_mem_i store e.rd e.ra e.field hd ha hf m pc_next
          ∙ exec_mem-access m store w e.rd e.ra e.disp pc_next f.0 f.1 (ap sx8 masked ∙ back)
              (flag_lem w store f.3),
    )
