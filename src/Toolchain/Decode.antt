-- ===== src/Toolchain/Decode.antt =====
-- tools/riscc_asm.py and tools/riscc_sim.py: the simulator's dispatch on the assembler's words.
use riscc.Prelude.{ℕ, ◌*◌, ◌/◌, ◌%◌, ◌^◌, ◌<◌, ◌≡◌, Bool, arith, if◌then◌else◌}
use riscc.Sim.State.{Sim}
use riscc.Sim.Exec.{ddd, aaa, f5, bbb, imm8, exec_mem, exec_imm}
use riscc.Sim.Register.{exec_register, execute}
use riscc.Asm.Encode.{enc_mem_i, enc_i, enc_r}
use riscc.Asm.Encode.Fields.{enc_r_sum, enc_i_sum, enc_mem_i_sum, not_long}

-- A register-format word and its fields.
module _ (rd ra func rb : ℕ) (hd : rd < 8) (ha : ra < 8) (hf : func < 32) (hb : rb < 8) where
  pub enc_r-fields :
      (ddd (enc_r rd ra func rb) ≡ rd)
      × (aaa (enc_r rd ra func rb) ≡ ra)
      × (f5 (enc_r rd ra func rb) ≡ func)
      × (bbb (enc_r rd ra func rb) ≡ rb)
      × (enc_r rd ra func rb < 2 ^ 16)
  enc_r-fields = omega (arith, enc_r_sum rd ra func rb hd ha hf hb)

  pub execute-enc_r :
      (m : Sim) (pc_next : ℕ)
      → execute m (enc_r rd ra func rb) pc_next ≡ exec_register m (enc_r rd ra func rb) pc_next
  unfolding execute
  execute-enc_r m pc_next =
      let w = enc_r rd ra func rb in
      let s = enc_r_sum rd ra func rb hd ha hf hb in
      ground (arith, s, not_long w (omega (arith, s)) (omega (arith, s)))

-- An immediate-format word and its fields.
module _ (rd op imm : ℕ) (hd : rd < 8) (ho : op < 8) (hi : imm < 256) where
  pub enc_i-fields :
      (ddd (enc_i rd op imm) ≡ rd)
      × (aaa (enc_i rd op imm) ≡ op)
      × (imm8 (enc_i rd op imm) ≡ imm)
      × (enc_i rd op imm < 2 ^ 16)
  enc_i-fields = omega (arith, enc_i_sum rd op imm hd ho hi)

  pub execute-enc_i :
      (m : Sim) (pc_next : ℕ)
      → execute m (enc_i rd op imm) pc_next ≡ exec_imm m (enc_i rd op imm) pc_next
  unfolding execute
  execute-enc_i m pc_next =
      let w = enc_i rd op imm in
      let s = enc_i_sum rd op imm hd ho hi in
      ground (arith, s, not_long w (omega (arith, s)) (omega (arith, s)))

-- A load or store word and its fields.
module _ (store : Bool) (rd ra imm : ℕ) (hd : rd < 8) (ha : ra < 8) (hi : imm < 256) where
  pub enc_mem_i-fields :
      (ddd (enc_mem_i store rd ra imm) ≡ rd)
      × (aaa (enc_mem_i store rd ra imm) ≡ ra)
      × (imm8 (enc_mem_i store rd ra imm) / 2 * 2 ≡ imm / 2 * 2)
      × (enc_mem_i store rd ra imm % 2 ≡ (if store then 1 else 0))
      × (enc_mem_i store rd ra imm < 2 ^ 16)
  enc_mem_i-fields = ground (arith, enc_mem_i_sum store rd ra imm hd ha hi)

  pub execute-enc_mem_i :
      (m : Sim) (pc_next : ℕ)
      → execute m (enc_mem_i store rd ra imm) pc_next
        ≡ exec_mem m (enc_mem_i store rd ra imm) pc_next
  unfolding execute
  execute-enc_mem_i m pc_next =
      let w = enc_mem_i store rd ra imm in
      let s = enc_mem_i_sum store rd ra imm hd ha hi in
      ground (arith, s, not_long w (ground (arith, s)) (ground (arith, s)))
