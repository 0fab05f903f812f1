-- ===== src/Clock.antt =====
-- The clock set-up of src/dfu.cpp. The waits for the oscillator and the PLL are recursion on the
-- promise that the hardware makes, as an argument.
pub mod Order
use ln_dso_stm32_dfu_bootloa.Common.{
  ℕ, ◌*◌, ◌^◌, ◌≡◌, refl, Bool, true, not, List, ◌∷◌, bit_and, bit_or, not32, u32, ◌==◌,
}
use ln_dso_stm32_dfu_bootloa.Machine.{
  Machine, Answer, Log, read, write, word, value, Settles, ready, again, poll, load, store,
  set_bits,
}

abbrev pub rcc_cr : ℕ
rcc_cr = 0x40021000

abbrev pub rcc_cfgr : ℕ
rcc_cfgr = 0x40021004

abbrev pub flash_acr : ℕ
flash_acr = 0x40022000

abbrev pub rcc_cr_hseon : ℕ
rcc_cr_hseon = 0x10000

abbrev pub rcc_cr_hserdy : ℕ
rcc_cr_hserdy = 0x20000

abbrev pub rcc_cr_pllon : ℕ
rcc_cr_pllon = 0x1000000

abbrev pub rcc_cr_pllrdy : ℕ
rcc_cr_pllrdy = 0x2000000

abbrev pub flash_acr_latency : ℕ
flash_acr_latency = 7

abbrev pub flash_acr_latency_2ws : ℕ
flash_acr_latency_2ws = 2

abbrev pub rcc_cfgr_sw : ℕ
rcc_cfgr_sw = 3

abbrev pub rcc_cfgr_sw_sysclksel_pllclk : ℕ
rcc_cfgr_sw_sysclksel_pllclk = 2

-- the fields of RCC_CFGR, each shifted to its place: HPRE, PPRE1, PPRE2, ADCPRE, PLLMUL, PLLSRC and
-- PLLXTPRE
abbrev pub prescalers : ℕ
prescalers =
    bit_or
      (bit_or
        (bit_or (bit_or (bit_or (bit_or (0 * 2 ^ 4) (4 * 2 ^ 8)) (0 * 2 ^ 11)) (3 * 2 ^ 14))
          (7 * 2 ^ 18))
        (1 * 2 ^ 16))
      (0 * 2 ^ 17)

abbrev pub has_bit : ℕ → ℕ → Bool
has_bit bit v = not (bit_and v bit == 0)

-- The hardware's promise: once HSEON has been stored the oscillator gets ready, and once PLLON has
-- been stored the PLL locks.
pub record Starts (answer : Answer) : Type 0 where
  pub hse :
      (log : Log) (v : ℕ)
      → Settles answer rcc_cr
          (has_bit rcc_cr_hserdy)
          (write word rcc_cr (bit_or v rcc_cr_hseon) ∷ log)
  pub pll :
      (log : Log) (v : ℕ)
      → Settles answer rcc_cr
          (has_bit rcc_cr_pllrdy)
          (write word rcc_cr (bit_or v rcc_cr_pllon) ∷ log)

-- `RCC_CR |= RCC_CR_HSEON; while (!(RCC_CR & RCC_CR_HSERDY));`
unfoldable pub start_hse : (m : Machine) → Starts m.answer → Machine
unfolding poll
start_hse m p = record m {
  log = poll (p.hse (read word rcc_cr ∷ m.log) (value m.answer m.log word rcc_cr));
}

unfoldable pub start_pll : (m : Machine) → Starts m.answer → Machine
unfolding poll
start_pll m p = record m {
  log = poll (p.pll (read word rcc_cr ∷ m.log) (value m.answer m.log word rcc_cr));
}

unfoldable pub set_prescalers : Machine → Machine
unfolding load store
set_prescalers m =
    let (v, m) = load word rcc_cfgr m in
    store word rcc_cfgr (bit_or (bit_and v 0xffc0000f) prescalers) m

unfoldable pub set_latency : Machine → Machine
unfolding load store
set_latency m =
    let (v, m) = load word flash_acr m in
    store word flash_acr (bit_or (bit_and v (not32 flash_acr_latency)) flash_acr_latency_2ws) m

unfoldable pub select_pll : Machine → Machine
unfolding load store
select_pll m =
    let (v, m) = load word rcc_cfgr m in
    store word rcc_cfgr (bit_or (bit_and v (not32 rcc_cfgr_sw)) rcc_cfgr_sw_sysclksel_pllclk) m

unfoldable pub clock_setup_in_hse_8mhz_out_72mhz : (m : Machine) → Starts m.answer → Machine
unfolding start_hse set_prescalers set_latency start_pll
clock_setup_in_hse_8mhz_out_72mhz m p =
    select_pll (start_pll (set_latency (set_prescalers (start_hse m p))) p)
