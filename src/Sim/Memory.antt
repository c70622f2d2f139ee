-- ===== src/Sim/Memory.antt =====
-- tools/riscc_sim.py: `load_word`, `store_word`, `ldb` and `stb`, with the memory-mapped test and
-- UART registers.
pub mod Bytes
pub mod Roundtrip
use riscc.Prelude.{
  ℕ, ◌*◌, ◌/◌, ◌%◌, ◌^◌, Bool, true, false, ◌&&◌, ◌||◌, [], ◌∷◌, ◌++◌, ◌==◌, if◌then◌else◌, bit_and,
  bit_or,
}
use riscc.Sim.State.{Sim, Uart, update, has_bits, uart_data_w, uart_state_w, test_irq_w, result_w}

-- `(baddr >> 1) & 0x7FFF`
abbrev pub word_index : ℕ → ℕ
word_index baddr = baddr / 2 % 2 ^ 15

abbrev pub uart_status : Uart → ℕ
uart_status u =
    bit_or (bit_or (if u.uart_rx_overflow then 4 else 0) (if u.uart_rx_ready then 2 else 0))
      (if u.uart_tx_ready then 1 else 0)

-- A load returns the word and the state that the read leaves.
unfoldable pub load_word : Sim → ℕ → ℕ × Sim
load_word m baddr =
    let waddr = word_index baddr in
    if waddr == test_irq_w
    then ((if m.irq_line == 0 then 0 else 1), record m { irq_line = 0 })
    else if m.uart && waddr == uart_data_w
    then (
      m.uart_rx_data,
      record m { port = record (m.port) { uart_rx_ready = false; uart_rx_overflow = false } },
    )
    else if m.uart && waddr == uart_state_w
    then (uart_status m.port, m)
    else (m.mem waddr, m)

-- The old word with the bytes that the mask selects replaced.
unfoldable pub merge_bytes : ℕ → ℕ → ℕ → ℕ
merge_bytes old val mask =
    let low = (if has_bits mask 1 then bit_or (bit_and old 0xff00) (bit_and val 0x00ff) else old) in
    if has_bits mask 2 then bit_or (bit_and low 0x00ff) (bit_and val 0xff00) else low

-- A write to one of the two UART registers.
abbrev pub store_uart : Sim → ℕ → ℕ → ℕ → Sim
store_uart m w val mask = record m {
  mem_written = update m.mem_written w true;
  port =
      if w == uart_data_w && has_bits mask 1
      then record (m.port) { uart_out = m.uart_out ++ bit_and val 0xff ∷ []; uart_tx_ready = true }
      else if w == uart_state_w && has_bits mask 1
      then record (m.port) { uart_irq_en = bit_and val 3 }
      else m.port;
}

unfoldable pub store_word : Sim → ℕ → ℕ → ℕ → Sim
unfolding merge_bytes
store_word m baddr val mask =
    let w = word_index baddr in
    if m.uart && (w == uart_data_w || w == uart_state_w)
    then store_uart m w val mask
    else record m {
      mem = update m.mem w (merge_bytes (m.mem w) val mask);
      mem_written = update m.mem_written w true;
      irq_line = if w == test_irq_w then 1 else m.irq_line;
      done = if w == result_w then true else m.done;
    }

-- A byte load reads the memory, also at the device registers' addresses.
unfoldable pub ldb : Sim → ℕ → Bool → ℕ
ldb m baddr signed =
    let w = m.mem (word_index baddr) in
    let b = (if has_bits baddr 1 then bit_and (w / 2 ^ 8) 0xff else bit_and w 0xff) in
    if signed && has_bits b 0x80 then bit_or b 0xff00 else b

unfoldable pub stb : Sim → ℕ → ℕ → Sim
unfolding store_word
stb m baddr val =
    if has_bits baddr 1
    then store_word m baddr (bit_and val 0xff * 2 ^ 8) 2
    else store_word m baddr (bit_and val 0xff) 1
