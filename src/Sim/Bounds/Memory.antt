-- ===== src/Sim/Bounds/Memory.antt =====
-- tools/riscc_sim.py: the well-formed states, and that loads, stores and register writes keep them.
use riscc.Prelude.{
  ℕ, ◌<◌, ◌^◌, ◌≡◌, refl, true, false, List, [], ◌∷◌, arith, if_both, ◌&&◌, ◌||◌, ◌==◌,
}
use riscc.Prelude.Bits.{bit_and_mask}
use riscc.Sim.State.{
  Sim, Uart, has_bits, receive, service_uart, uart_data_w, uart_state_w, test_irq_w,
}
use riscc.Sim.Memory.{word_index, uart_status, load_word, store_uart, store_word, stb}
use riscc.Sim.Bounds.Values.{
  IsWord, AreWords, AreBytes, AreBytes-append, update-AreWords, merge_bytes-lt,
}

-- The control registers: a halfword address and two flags.
abbrev pub ControlFits : Sim → Type 0
ControlFits m = (m.pc < 2 ^ 15) × (m.ie < 2) × (m.irq_line < 2)

-- The UART holds bytes, its enable register two bits; the overflow flag is clear, and the
-- transmitter is ready.
abbrev pub UartFits : Uart → Type 0
UartFits u =
    AreBytes u.uart_in
    × AreBytes u.uart_out
    × (u.uart_rx_data < 256)
    × (u.uart_irq_en < 4)
    × (u.uart_rx_overflow ≡ false)
    × (u.uart_tx_ready ≡ true)

abbrev pub WellFormed : Sim → Type 0
WellFormed m = AreWords m.mem × AreWords m.r × AreWords m.s × ControlFits m × UartFits m.port

receive-UartFits : (u : Uart) (bs : List ℕ) → AreBytes bs → UartFits u → UartFits (receive u bs)
receive-UartFits u [] hb h = h
receive-UartFits u (b ∷ bs) hb h =
    if_both UartFits u.uart_rx_ready h (hb.1, h.1, hb.0, h.3, h.4, h.5)

pub service_uart-WellFormed : (m : Sim) → WellFormed m → WellFormed (service_uart m)
unfolding service_uart
service_uart-WellFormed m w =
    if_both WellFormed m.uart (w.0, w.1, w.2, w.3, receive-UartFits m.port m.uart_in w.4.0 w.4) w

-- A load gives a word and keeps the state well-formed.
abbrev pub LoadFits : ℕ × Sim → Type 0
LoadFits (v, m) = IsWord v × WellFormed m

status-lt : (u : Uart) → UartFits u → IsWord (uart_status u)
status-lt u h = ground arith

pub load_word-LoadFits : (m : Sim) (a : ℕ) → WellFormed m → LoadFits (load_word m a)
unfolding load_word
load_word-LoadFits m a w =
    let wa = word_index a in
    if_both LoadFits (wa == test_irq_w)
      (
        if_both IsWord (m.irq_line == 0) (omega arith) (omega arith),
        (w.0, w.1, w.2, (w.3.0, w.3.1, omega arith), w.4),
      )
      (if_both LoadFits (m.uart && wa == uart_data_w)
        (omega arith, (w.0, w.1, w.2, w.3, (w.4.0, w.4.1, w.4.2, w.4.3, refl, w.4.5)))
        (if_both LoadFits (m.uart && wa == uart_state_w) (status-lt m.port w.4, w) (w.0 wa, w)))

store_uart-UartFits :
    (m : Sim) (w val mask : ℕ)
    → UartFits m.port
    → IsWord val
    → UartFits (store_uart m w val mask).port
store_uart-UartFits m w val mask h hv =
    if_both UartFits (w == uart_data_w && has_bits mask 1)
      (
        h.0,
        AreBytes-append m.uart_out _ h.1 (omega (arith, bit_and_mask 8 val), tt),
        h.2,
        h.3,
        h.4,
        refl,
      )
      (if_both UartFits (w == uart_state_w && has_bits mask 1)
        (h.0, h.1, h.2, omega (arith, bit_and_mask 2 val), h.4, h.5) h)

pub store_word-WellFormed :
    (m : Sim) (a val mask : ℕ) → WellFormed m → IsWord val → WellFormed (store_word m a val mask)
unfolding store_word
store_word-WellFormed m a val mask w hv =
    let wa = word_index a in
    if_both WellFormed (m.uart && (wa == uart_data_w || wa == uart_state_w))
      (w.0, w.1, w.2, w.3, store_uart-UartFits m wa val mask w.4 hv)
      (
        update-AreWords wa _ w.0 (merge_bytes-lt (m.mem wa) val mask (w.0 wa) hv),
        w.1,
        w.2,
        (w.3.0, w.3.1, if_both (λ l. l < 2) (wa == test_irq_w) (omega arith) w.3.2),
        w.4,
      )

pub stb-WellFormed : (m : Sim) (a val : ℕ) → WellFormed m → WellFormed (stb m a val)
unfolding stb
stb-WellFormed m a val w =
    if_both WellFormed (has_bits a 1)
      (store_word-WellFormed m a _ 2 w (omega (arith, bit_and_mask 8 val)))
      (store_word-WellFormed m a _ 1 w (omega (arith, bit_and_mask 8 val)))
