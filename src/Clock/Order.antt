-- ===== src/Clock/Order.antt =====
-- The order in which the clock set-up of src/dfu.cpp touches the registers.
use ln_dso_stm32_dfu_bootloa.Common.{
  ℕ, ◌/◌, ◌%◌, ◌≡◌, ◌≢◌, refl, Bool, true, some, ◌∷◌, ◌==◌, bit_and, bit_or, not32, ◌∙◌, sym, ap,
  arith, ==→eq, holds_below_sound, HasBytes, HasBytes-eq, bytes_of, bit_and-HasBytes,
  bit_or-HasBytes, bit_and_le,
}
use ln_dso_stm32_dfu_bootloa.Machine.{
  Machine, Log, Answer, Width, read, write, word, value, Settles, ready, again, poll, load, store,
}
use ln_dso_stm32_dfu_bootloa.Machine.Trace.{stored_word, stored_word-poll}
use ln_dso_stm32_dfu_bootloa.Clock.{
  rcc_cr, rcc_cfgr, flash_acr, rcc_cr_pllrdy, rcc_cr_pllon, flash_acr_latency,
  flash_acr_latency_2ws, rcc_cfgr_sw, rcc_cfgr_sw_sysclksel_pllclk, prescalers, has_bit, Starts,
  start_hse, set_prescalers, set_latency, start_pll, select_pll, clock_setup_in_hse_8mhz_out_72mhz,
}

-- The accesses since `start`, the newest first: loads, stores to registers other than RCC_CFGR, and
-- changes of RCC_CFGR, a load and a store, that leave the clock that it selects.
pub data KeepsClock (answer : Answer) (start : Log) : Log → Type 0 where
  at_start : KeepsClock answer start start
  loads :
      {log : Log} (w : Width) (a : ℕ)
      → KeepsClock answer start log
      → KeepsClock answer start (read w a ∷ log)
  stores_other :
      {log : Log} (a v : ℕ)
      → a ≢ rcc_cfgr
      → KeepsClock answer start log
      → KeepsClock answer start (write word a v ∷ log)
  changes :
      {log : Log} (v : ℕ)
      → bit_and v rcc_cfgr_sw ≡ bit_and (value answer log word rcc_cfgr) rcc_cfgr_sw
      → KeepsClock answer start log
      → KeepsClock answer start (write word rcc_cfgr v ∷ read word rcc_cfgr ∷ log)

poll-KeepsClock :
    {answer : Answer} {a : ℕ} {done : ℕ → Bool} {start log : Log} (s : Settles answer a done log)
    → KeepsClock answer start log
    → KeepsClock answer start (poll s)
unfolding poll
poll-KeepsClock {a = a} (ready e) k = loads word a k
poll-KeepsClock {a = a} (again e s) k = poll-KeepsClock s (loads word a k)

-- A wait ends with a load that returned what was waited for, and changes no clock before it either.
waits_on :
    {answer : Answer} {a : ℕ} {done : ℕ → Bool} {start log : Log} (s : Settles answer a done log)
    → KeepsClock answer start log
    → (log' : Log) × (poll s ≡ read word a ∷ log')
      × (done (value answer log' word a) ≡ true)
      × KeepsClock answer start log'
unfolding poll
waits_on (ready {log = log} e) k = (log, refl, e, k)
waits_on {a = a} (again e s) k = waits_on s (loads word a k)

-- The prescalers leave SW.
keeps_sw :
    (v : ℕ) → bit_and (bit_or (bit_and v 0xffc0000f) prescalers) rcc_cfgr_sw ≡ bit_and v rcc_cfgr_sw
keeps_sw v =
    HasBytes-eq (bit_and-HasBytes (bit_or-HasBytes (bit_and-HasBytes (bytes_of v) mask) fields) sw)
      (bit_and-HasBytes (bytes_of v) sw)
      (omega
        (arith, bit_and_le (bit_or (bit_and (v / 256) 0xffc000) 0x1dc4) 0, bit_and_le (v / 256) 0))
      (==→eq _ _ (
        holds_below_sound (λ (b : ℕ). bit_and (bit_or (bit_and b 0x0f) 0) 3 == bit_and b 3) 256
          (v % 256) refl (omega arith)))
  where
    mask : HasBytes 0xffc0000f 0xffc000 0x0f
    mask = record { value = refl; low = omega arith }

    fields : HasBytes prescalers 0x1dc4 0
    fields = record { value = refl; low = omega arith }

    sw : HasBytes rcc_cfgr_sw 0 3
    sw = record { value = refl; low = omega arith }

-- The last accesses of the set-up: a load of RCC_CR that returned PLLRDY, and the change of RCC_CFGR
-- that selects the PLL; before them the flash got its wait states and no access changed the clock.
pub record IsLocked (m m' : Machine) : Type 0 where
  pub before : Log
  pub setting : ℕ
  pub latency : ℕ
  pub switched :
      m'.log
      ≡ write word rcc_cfgr
          (bit_or (bit_and setting (not32 rcc_cfgr_sw)) rcc_cfgr_sw_sysclksel_pllclk)
        ∷ read word rcc_cfgr
        ∷ read word rcc_cr
        ∷ before
  pub unselected : KeepsClock m.answer m.log before
  pub locked : has_bit rcc_cr_pllrdy (value m.answer before word rcc_cr) ≡ true
  pub waits :
      stored_word before flash_acr
      ≡ some (bit_or (bit_and latency (not32 flash_acr_latency)) flash_acr_latency_2ws)

-- If the oscillator gets ready and the PLL locks, the set-up comes to its end, and it selects the
-- PLL as the clock in its last access, right after a load of RCC_CR in which the PLL was locked, with
-- the flash at two wait states by then; no earlier access of the set-up changes the clock selected.
pub clock_setup-IsLocked :
    (m : Machine) (p : Starts m.answer) → IsLocked m (clock_setup_in_hse_8mhz_out_72mhz m p)
unfolding clock_setup_in_hse_8mhz_out_72mhz start_hse set_prescalers set_latency start_pll
    select_pll load store
clock_setup-IsLocked m p = record {
  before = ended.0;
  setting = value m.answer (poll lock) word rcc_cfgr;
  latency = value m.answer (set_prescalers (start_hse m p)).log word flash_acr;
  switched =
      ap
        (λ log.
          write word rcc_cfgr (
            bit_or (bit_and (value m.answer (poll lock) word rcc_cfgr) (not32 rcc_cfgr_sw))
              rcc_cfgr_sw_sysclksel_pllclk)
          ∷ read word rcc_cfgr
          ∷ log)
        ended.1;
  unselected = ended.3;
  locked = ended.2;
  waits = ap (λ log. stored_word log flash_acr) (sym ended.1) ∙ stored_word-poll lock flash_acr;
}
  where
    configured_m : Machine
    configured_m = set_latency (set_prescalers (start_hse m p))

    lock : Settles m.answer rcc_cr (has_bit rcc_cr_pllrdy) (
        write word rcc_cr (bit_or (value m.answer configured_m.log word rcc_cr) rcc_cr_pllon)
        ∷ read word rcc_cr
        ∷ configured_m.log)
    lock = p.pll (read word rcc_cr ∷ configured_m.log) (value m.answer configured_m.log word rcc_cr)

    configured : KeepsClock m.answer m.log configured_m.log
    configured = stores_other flash_acr _ (omega arith) (
        loads word flash_acr (
          changes _ (keeps_sw _) (
            poll-KeepsClock (p.hse (read word rcc_cr ∷ m.log) (value m.answer m.log word rcc_cr))
              (stores_other rcc_cr _ (omega arith) (loads word rcc_cr at_start)))))

    ended :
        (log' : Log) × (poll lock ≡ read word rcc_cr ∷ log')
        × (has_bit rcc_cr_pllrdy (value m.answer log' word rcc_cr) ≡ true)
        × KeepsClock m.answer m.log log'
    ended = waits_on lock (stores_other rcc_cr _ (omega arith) (loads word rcc_cr configured))
