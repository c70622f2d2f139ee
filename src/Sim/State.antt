-- ===== src/Sim/State.antt =====
-- tools/riscc_sim.py: the fields of class Sim, its constructor, `sx8` and `sx16`, the UART's
-- service routine and its interrupt. A Python list of words is a function from its index; every
-- index that the source uses is masked to the list's length.
use riscc.Prelude.{
  ℕ, ◌+◌, ◌*◌, ◌^◌, Bool, true, false, not, ◌&&◌, ◌||◌, List, [], ◌∷◌, ltb, ◌==◌, if◌then◌else◌,
  bit_and, bit_or,
}
use riscc.Prelude.Int.{ℤ, pos, sub_ℕ}
use riscc.Prelude.Lists.{length, get_or}

-- `a[k] = v`
abbrev pub update {ℓ} : {A : Type ℓ} → (ℕ → A) → ℕ → A → ℕ → A
update f k v j = if j == k then v else f j

-- `bool(v & m)`
abbrev pub has_bits : ℕ → ℕ → Bool
has_bits v m = not (bit_and v m == 0)

unfoldable pub sx8 : ℕ → ℤ
sx8 v = if has_bits v 0x80 then sub_ℕ v 256 else pos v

unfoldable pub sx16 : ℕ → ℤ
sx16 v = if has_bits v 0x8000 then sub_ℕ v 0x1_0000 else pos v

abbrev pub uart_data_w : ℕ
uart_data_w = 0x7ff8

abbrev pub uart_state_w : ℕ
uart_state_w = 0x7ff9

abbrev pub test_irq_w : ℕ
test_irq_w = 0x7ffd

abbrev pub result_w : ℕ
result_w = 0x7fff

abbrev pub reset_pc : ℕ
reset_pc = 0

-- The options that the constructor fixes.
pub record Profile : Type 0 where
  pub nano : Bool
  pub sys_tier : Bool
  pub shifts : Bool
  pub long_jall : Bool
  pub full : Bool
  pub mdu : Bool
  pub iflush : Bool
  pub trace : Bool
  pub uart : Bool

-- The UART's fields.
pub record Uart : Type 0 where
  pub uart_in : List ℕ
  pub uart_out : List ℕ
  pub uart_rx_data : ℕ
  pub uart_rx_ready : Bool
  pub uart_rx_overflow : Bool
  pub uart_irq_en : ℕ
  pub uart_tx_ready : Bool

-- What `emit_trace` prints.
pub record TraceLine : Type 0 where
  pub trace_step : ℕ
  pub trace_pc : ℕ
  pub trace_ir : ℕ
  pub trace_ie : ℕ
  pub trace_r : ℕ → ℕ
  pub trace_s : ℕ → ℕ

pub record Sim : Type 0 where
  pub profile : Profile
  pub open profile use *
  pub port : Uart
  pub open port use *
  pub mem : ℕ → ℕ
  pub r : ℕ → ℕ
  pub s : ℕ → ℕ
  pub pc : ℕ
  pub ie : ℕ
  pub irq_line : ℕ
  pub insns : ℕ
  pub trace_steps : ℕ
  pub printed : List TraceLine
  pub mem_written : ℕ → Bool
  pub irq_taken : ℕ
  pub done : Bool
  pub halted : Bool

-- The arguments of the constructor that choose the profile.
pub record Options : Type 0 where
  pub sys_tier : Bool
  pub full : Bool
  pub mdu : Bool
  pub nano : Bool
  pub trace : Bool
  pub uart : Bool
  pub iflush : Bool

unfoldable pub make_profile : Options → Profile
make_profile o =
    let sys_tier = (if o.nano then false else o.sys_tier) in
    let full = o.full && not o.nano in
    record {
      nano = o.nano;
      sys_tier = sys_tier;
      shifts = o.nano || o.full;
      long_jall = o.sys_tier && not o.nano;
      full = full;
      mdu = o.mdu && full;
      iflush = o.iflush && sys_tier;
      trace = o.trace;
      uart = o.uart;
    }

-- The image's little-endian halfwords; an odd image ends with a zero byte, and the rest is zero.
unfoldable pub load_image : List ℕ → ℕ → ℕ
load_image image w =
    if ltb (2 * w) (length image) && ltb (2 * w) 0x1_0000
    then bit_or (get_or image (2 * w) 0) (get_or image (2 * w + 1) 0 * 2 ^ 8)
    else 0

unfoldable pub init : List ℕ → Options → List ℕ → Sim
unfolding make_profile load_image
init image o uart_in = record {
  profile = make_profile o;
  port = record {
    uart_in = uart_in;
    uart_out = [];
    uart_rx_data = 0;
    uart_rx_ready = false;
    uart_rx_overflow = false;
    uart_irq_en = 0;
    uart_tx_ready = true;
  };
  mem = load_image image;
  r = λ _. 0;
  s = λ _. 0;
  pc = reset_pc;
  ie = 0;
  irq_line = 0;
  insns = 0;
  trace_steps = 0;
  printed = [];
  mem_written = λ _. false;
  irq_taken = 0;
  done = false;
  halted = false;
}

-- `if not ready and uart_in: data = uart_in.pop(0); ready = True`
abbrev pub receive : Uart → List ℕ → Uart
receive u [] = u
receive u (b ∷ rest) =
    if u.uart_rx_ready
    then u
    else record u { uart_in = rest; uart_rx_data = b; uart_rx_ready = true }

unfoldable pub service_uart : Sim → Sim
service_uart m = if m.uart then record m { port = receive m.port m.uart_in } else m

unfoldable pub uart_irq : Sim → Bool
uart_irq m =
    m.uart
    && (has_bits m.uart_irq_en 1 && m.uart_rx_ready || has_bits m.uart_irq_en 2 && m.uart_tx_ready)
