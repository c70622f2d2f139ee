-- ===== src/Sim/Memory/Roundtrip.antt =====
-- tools/riscc_sim.py: a load gives back what a store wrote, and a store touches nothing else.
use riscc.Prelude.{
  ℕ, ◌*◌, ◌%◌, ◌^◌, ◌<◌, ◌≡◌, ◌≢◌, Bool, false, arith, ◌==◌, if◌then◌else◌, ◌&&◌, ◌||◌,
}
use riscc.Sim.State.{Sim, test_irq_w, uart_data_w, uart_state_w}
use riscc.Sim.Memory.{word_index, load_word, store_word, stb}
use riscc.Sim.Memory.Bytes.{merge_low, merge_high, merge_both, byte_at, low_lane, odd_test}

-- The words that the UART, if it is on, takes from the memory.
abbrev pub is_uart_word : Sim → ℕ → Bool
is_uart_word m w = m.uart && (w == uart_data_w || w == uart_state_w)

-- Ordinary memory: no device register stands there.
abbrev pub IsMemory : Sim → ℕ → Type 0
IsMemory m a = (word_index a ≢ test_irq_w) × (is_uart_word m (word_index a) ≡ false)

module _ (m : Sim) where
  -- A word stored in ordinary memory, whose old content fits 16 bits, is the word that a load
  -- from any address of the same word finds.
  pub load_word-store_word :
      (a b v : ℕ)
      → IsMemory m a
      → word_index b ≡ word_index a
      → m.mem (word_index a) < 2 ^ 16
      → v < 2 ^ 16
      → (load_word (store_word m a v 3) b).0 ≡ v
  unfolding load_word store_word
  load_word-store_word a b v h e hm hv = ground (arith, merge_both (m.mem (word_index a)) v hm hv)

  -- A store reaches no other word of the memory.
  pub store_word_frame :
      (a v mask w : ℕ) → w ≢ word_index a → (store_word m a v mask).mem w ≡ m.mem w
  unfolding store_word
  store_word_frame a v mask w h = ground arith

  -- After a byte store to a word that the UART does not take and that fits 16 bits, the byte at
  -- the address is the low byte of the value, and every other byte of memory is kept.
  pub stb_lem :
      (a v : ℕ)
      → is_uart_word m (word_index a) ≡ false
      → m.mem (word_index a) < 2 ^ 16
      → (b : ℕ)
      → byte_at (stb m a v) b
        ≡ (if word_index b == word_index a && b % 2 == a % 2 then v % 256 else byte_at m b)
  unfolding stb store_word
  stb_lem a v h hm b = ground (
    arith,
    odd_test a,
    low_lane v,
    merge_low (m.mem (word_index a)) (v % 256) hm (omega arith),
    merge_high (m.mem (word_index a)) (v % 256 * 2 ^ 8) hm (omega arith),
  )
