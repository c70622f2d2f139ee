-- ===== src/Sim/Bounds/Register.antt =====
-- tools/riscc_sim.py: the register format and the whole dispatch keep the state well-formed.
use riscc.Prelude.{
  ℕ, ◌+◌, ◌*◌, ◌%◌, ◌<◌, ◌^◌, true, false, not, arith, if_both, if◌then◌else◌, bit_and, ltb, ◌&&◌,
  ◌||◌, ◌==◌,
}
use riscc.Prelude.Result.{Result, ok, err, ◌>>=◌}
use riscc.Sim.State.{Sim}
use riscc.Sim.Memory.{load_word}
use riscc.Sim.Alu.{Undefined}
use riscc.Sim.Exec.{ddd, aaa, f5, bbb, opc, set_reg, exec_control, exec_sys}
use riscc.Sim.Register.{exec_shift, exec_direct, exec_register, execute}
use riscc.Sim.Bounds.Values.{
  IsWord, ldb-lt, ReturnsWord, alu-ReturnsWord, shift_right-lt, funnel_left-lt, funnel_right-lt,
}
use riscc.Sim.Bounds.Memory.{WellFormed, load_word-LoadFits, stb-WellFormed}
use riscc.Sim.Bounds.Handlers.{
  Keeps, set_reg-WellFormed, set_sreg-WellFormed, link_sreg-WellFormed, load-Keeps, exec_long-Keeps,
  exec_mem-Keeps, exec_imm-Keeps, exec_mdu-Keeps,
}

module _ (m : Sim) (ir pc_next : ℕ) (w : WellFormed m) (hpc : pc_next < 2 ^ 15) where
  exec_control-Keeps : Keeps (exec_control m ir pc_next)
  unfolding exec_control
  exec_control-Keeps =
      let d = ddd ir in
      let a = aaa ir in
      if_both Keeps (d == 0) (w, omega arith)
        (if_both Keeps (d == 5 && m.sys_tier)
          ((w.0, w.1, w.2, (w.3.0, omega arith, w.3.2), w.4), omega arith)
          (if_both Keeps (d == 3 && m.iflush) (if_both Keeps (a == 0) (w, hpc) tt) (
            if_both Keeps ((d == 2 || d == 7) && m.sys_tier)
              (if_both Keeps (a == 0)
                (
                  (
                    w.0,
                    w.1,
                    w.2,
                    (w.3.0, if_both (λ e. e < 2) (d == 7) (omega arith) (omega arith), w.3.2),
                    w.4,
                  ),
                  hpc,
                )
                tt)
              tt)))

  exec_sys-Keeps : Keeps (exec_sys m ir pc_next)
  unfolding exec_sys
  exec_sys-Keeps =
      let d = ddd ir in
      let a = aaa ir in
      let link : IsWord (pc_next * 2 % 2 ^ 16) = omega arith in
      if_both Keeps m.nano
        (if_both Keeps (bbb ir == 1)
          (if_both WellFormed (d == 0) w (set_reg-WellFormed m d _ w link), omega arith) tt)
        (if_both Keeps (bbb ir == 0) exec_control-Keeps (
          if_both Keeps (bbb ir == 1) (link_sreg-WellFormed m d _ w link, omega arith)
            (if_both Keeps (bbb ir == 2) (set_reg-WellFormed m d _ w (w.2 a), hpc)
              (if_both Keeps (bbb ir == 3) (set_sreg-WellFormed m d _ w (w.1 a), hpc) tt))))

  exec_shift-Keeps : Keeps (exec_shift m ir pc_next)
  unfolding exec_shift
  exec_shift-Keeps =
      let d = ddd ir in
      let v = w.1 (aaa ir) in
      let n = (if m.nano then 1 else if m.shifts then bbb ir + 1 else 1) in
      if_both Keeps (f5 ir == 0x0c || f5 ir == 0x0d)
        (set_reg-WellFormed m d _ w (shift_right-lt (f5 ir == 0x0d) n _ v), hpc)
        (if_both Keeps (f5 ir == 0x0f)
          (if_both Keeps (m.nano || not m.shifts) tt
            (set_reg-WellFormed m d _ w (omega arith), hpc))
          (if_both Keeps (ltb 1 (bbb ir)) tt (
            if_both Keeps m.nano tt (
              set_reg-WellFormed m d _ w
                  (if_both IsWord (bbb ir == 0) (funnel_left-lt _ _) (funnel_right-lt _ _ (w.1 d))),
              hpc,
            ))))

  exec_direct-Keeps : Keeps (exec_direct m ir pc_next)
  unfolding exec_direct
  exec_direct-Keeps =
      let d = ddd ir in
      let a = m.r (aaa ir) in
      if_both Keeps (f5 ir == 0x08)
        (load-Keeps (load_word m _) d pc_next (load_word-LoadFits m _ w) hpc)
        (if_both Keeps (f5 ir == 0x0a)
          (if_both Keeps (bbb ir == 0) (set_reg-WellFormed m d _ w (ldb-lt m a false w.0), hpc) tt)
          (if_both Keeps (f5 ir == 0x0e)
            (if_both Keeps (bbb ir == 0) (set_reg-WellFormed m d _ w (ldb-lt m a true w.0), hpc) tt)
            (if_both Keeps (bbb ir == 0) (stb-WellFormed m a (m.r d) w, hpc) tt)))

  writes_result :
      (d : ℕ) (res : Result Undefined ℕ)
      → ReturnsWord res
      → Keeps (res >>= λ v. ok (set_reg m d v, pc_next))
  writes_result d (ok v) h = (set_reg-WellFormed m d v w h, hpc)
  writes_result d (err e) h = tt

  exec_register-Keeps : Keeps (exec_register m ir pc_next)
  unfolding exec_register
  exec_register-Keeps =
      if_both Keeps (ltb (f5 ir) 0x08)
        (writes_result (ddd ir) _
          (alu-ReturnsWord m.profile (f5 ir) _ _ (w.1 (aaa ir)) (w.1 (bbb ir))))
        (if_both Keeps (f5 ir == 0x08 || f5 ir == 0x0a || f5 ir == 0x0e || f5 ir == 0x0b)
          exec_direct-Keeps
          (if_both Keeps (f5 ir == 0x0c || f5 ir == 0x0d || f5 ir == 0x0f || f5 ir == 0x11)
            exec_shift-Keeps
            (if_both Keeps (f5 ir == 0x10 || f5 ir == 0x14) (exec_mdu-Keeps m ir pc_next w hpc)
              (if_both Keeps (f5 ir == 0x1f) exec_sys-Keeps tt))))

  pub execute-Keeps : Keeps (execute m ir pc_next)
  unfolding execute
  execute-Keeps = if_both Keeps (bit_and ir 0xc7ff == 0x0034) (exec_long-Keeps m ir pc_next w hpc) (
      if_both Keeps (opc ir == 1) (exec_mem-Keeps m ir pc_next w hpc)
        (if_both Keeps (opc ir == 2) (exec_imm-Keeps m ir pc_next w hpc) exec_register-Keeps))
