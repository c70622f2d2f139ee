-- ===== src/Asm/Insn/Size.antt =====
-- tools/riscc_asm.py: an encoded instruction has the size that `insn_size` lays out for it.
use riscc.Prelude.{ℕ, ◌≡◌, Bool, true, false, not, List, arith, if_both}
use riscc.Prelude.Lists.{length}
use riscc.Prelude.Result.{ok, err}
use riscc.Asm.Text.{Text}
use riscc.Asm.Expr.{Python, Labels}
use riscc.Asm.Syntax.{
  Mnemonic, jal16, jmp16, ret, reti, ldi16, nop, ld, st, mov, shl1, fsl1, fsr1, ldx, ldb, ldbs, stb,
  jalr, jmp, iflush_, cli, sti, mfs, mts, mfepc, mtepc, halt, unknown, imm, branch, three, shift,
  ImmOp, Cond, RegOp, ShiftOp,
}
use riscc.Asm.Encode.{encode_word, enc_long, insn_size}
use riscc.Asm.Insn.{
  Bytes, encode_long, encode_ldi16, encode_mem, encode_imm, encode_branch, encode_shift, encode_two,
  encode_three, encode_ldx, encode_direct, encode_jalr, encode_ret, encode_jmp, encode_mfs,
  encode_mts, encode_epc, encode_fixed, encode_insn,
}

-- The bytes, unless an error is raised, are so many.
abbrev pub HasLength : ℕ → Bytes → Type 0
HasLength n (ok bs) = length bs ≡ n
HasLength n (err e) = Unit

module _ (py : Python) (operands : List Text) (labels : Labels) where
  long-HasLength : (links : Bool) → HasLength 4 (encode_long py operands labels links)
  unfolding encode_long enc_long encode_word
  long-HasLength links = ground arith

  ldi16-HasLength : HasLength 4 (encode_ldi16 py operands labels)
  unfolding encode_ldi16 encode_word
  ldi16-HasLength = ground arith

  mem-HasLength : (store : Bool) → HasLength 2 (encode_mem py operands labels store)
  unfolding encode_mem encode_word
  mem-HasLength store = ground arith

  imm-HasLength : (op : ImmOp) → HasLength 2 (encode_imm py operands labels op)
  unfolding encode_imm encode_word
  imm-HasLength op = ground arith

  branch-HasLength : (cc : Cond) (pc : ℕ) → HasLength 2 (encode_branch py operands labels cc pc)
  unfolding encode_branch encode_word
  branch-HasLength cc pc = ground arith

  shift-HasLength : (op : ShiftOp) → HasLength 2 (encode_shift py operands labels op)
  unfolding encode_shift encode_word
  shift-HasLength op = ground arith

  two-HasLength : (func : ℕ) (rb : ℕ → ℕ) → HasLength 2 (encode_two py operands labels func rb)
  unfolding encode_two encode_word
  two-HasLength func rb = ground arith

  three-HasLength : (op : RegOp) → HasLength 2 (encode_three py operands labels op)
  unfolding encode_three encode_word
  three-HasLength op = ground arith

  ldx-HasLength : HasLength 2 (encode_ldx py operands labels)
  unfolding encode_ldx encode_word
  ldx-HasLength = ground arith

  direct-HasLength : (func : ℕ) → HasLength 2 (encode_direct py operands labels func)
  unfolding encode_direct encode_word
  direct-HasLength func = ground arith

  jalr-HasLength : HasLength 2 (encode_jalr py operands labels)
  unfolding encode_jalr encode_word
  jalr-HasLength = ground arith

  ret-HasLength : (ccc : ℕ) → HasLength 2 (encode_ret py operands labels ccc)
  unfolding encode_ret encode_word
  ret-HasLength ccc = ground arith

  jmp-HasLength : HasLength 2 (encode_jmp py operands labels)
  unfolding encode_jmp encode_word
  jmp-HasLength = ground arith

  mfs-HasLength : HasLength 2 (encode_mfs py operands labels)
  unfolding encode_mfs encode_word
  mfs-HasLength = ground arith

  mts-HasLength : HasLength 2 (encode_mts py operands labels)
  unfolding encode_mts encode_word
  mts-HasLength = ground arith

  epc-HasLength : (reads : Bool) → HasLength 2 (encode_epc py operands labels reads)
  unfolding encode_epc encode_word
  epc-HasLength reads = ground arith

  fixed-HasLength : (word : ℕ) → HasLength 2 (encode_fixed py operands labels word)
  unfolding encode_fixed encode_word
  fixed-HasLength word = ground arith

  halt-HasLength :
      (pc : ℕ) (iflush : Bool) → HasLength 2 (encode_insn py operands labels halt pc iflush)
  unfolding encode_insn encode_word
  halt-HasLength pc iflush = ground arith

  -- Whatever the operands, the labels and the address, the bytes of an accepted instruction are as
  -- many as `insn_size` says of its mnemonic.
  pub encode_insn-HasLength :
      (op : Mnemonic) (pc : ℕ) (iflush : Bool)
      → HasLength (insn_size op) (encode_insn py operands labels op pc iflush)
  unfolding encode_insn insn_size
  encode_insn-HasLength jal16 pc iflush = long-HasLength true
  encode_insn-HasLength jmp16 pc iflush = long-HasLength false
  encode_insn-HasLength ret pc iflush = ret-HasLength 0
  encode_insn-HasLength reti pc iflush = ret-HasLength 5
  encode_insn-HasLength ldi16 pc iflush = ldi16-HasLength
  encode_insn-HasLength nop pc iflush = fixed-HasLength _
  encode_insn-HasLength ld pc iflush = mem-HasLength false
  encode_insn-HasLength st pc iflush = mem-HasLength true
  encode_insn-HasLength (imm op) pc iflush = imm-HasLength op
  encode_insn-HasLength (branch cc) pc iflush = branch-HasLength cc pc
  encode_insn-HasLength mov pc iflush = two-HasLength _ _
  encode_insn-HasLength shl1 pc iflush = two-HasLength _ _
  encode_insn-HasLength fsl1 pc iflush = two-HasLength _ _
  encode_insn-HasLength fsr1 pc iflush = two-HasLength _ _
  encode_insn-HasLength (three op) pc iflush = three-HasLength op
  encode_insn-HasLength (shift op) pc iflush = shift-HasLength op
  encode_insn-HasLength ldx pc iflush = ldx-HasLength
  encode_insn-HasLength ldb pc iflush = direct-HasLength _
  encode_insn-HasLength ldbs pc iflush = direct-HasLength _
  encode_insn-HasLength stb pc iflush = direct-HasLength _
  encode_insn-HasLength jalr pc iflush = jalr-HasLength
  encode_insn-HasLength jmp pc iflush = jmp-HasLength
  encode_insn-HasLength cli pc iflush = fixed-HasLength _
  encode_insn-HasLength sti pc iflush = fixed-HasLength _
  encode_insn-HasLength mfs pc iflush = mfs-HasLength
  encode_insn-HasLength mts pc iflush = mts-HasLength
  encode_insn-HasLength mfepc pc iflush = epc-HasLength true
  encode_insn-HasLength mtepc pc iflush = epc-HasLength false
  encode_insn-HasLength unknown pc iflush = tt
  encode_insn-HasLength iflush_ pc iflush =
      if_both (HasLength 2) (not iflush) tt (fixed-HasLength _)
  encode_insn-HasLength halt pc iflush = halt-HasLength pc iflush
