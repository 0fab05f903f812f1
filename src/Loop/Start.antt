-- ===== src/Loop/Start.antt =====
-- The accesses of `setupForUsb` in src/dfu.cpp.
use ln_dso_stm32_dfu_bootloa.Common.{
  Holds, none-Holds, some-Holds, bind-Holds, trivial-Holds, ℕ, ◌≤◌, ◌≢◌, true, false, List, ◌∷◌,
  arith,
}
use ln_dso_stm32_dfu_bootloa.Machine.{Machine, read, word, value, load, store, set_bits}
use ln_dso_stm32_dfu_bootloa.Machine.Trace.{poll-All}
use ln_dso_stm32_dfu_bootloa.Config.{Config}
use ln_dso_stm32_dfu_bootloa.Stubs.{x_delay}
use ln_dso_stm32_dfu_bootloa.Flash.{flash_ar}
use ln_dso_stm32_dfu_bootloa.Flash.Safe.{IsSafe}
use ln_dso_stm32_dfu_bootloa.Board.{
  Peripheral, gpio_a, gpio_b, gpio_c, af, other, rcu_apb2en, ln_peripheral_enable, output,
}
use ln_dso_stm32_dfu_bootloa.Clock.{
  Starts, rcc_cr, rcc_cfgr, flash_acr, start_hse, start_pll, set_prescalers, set_latency,
  select_pll, clock_setup_in_hse_8mhz_out_72mhz,
}
use ln_dso_stm32_dfu_bootloa.Usb.Regs.{usb_cntr_reg}
use ln_dso_stm32_dfu_bootloa.Usb.Safe.{IsSafeSoFar, load-Safe, store-Safe}
use ln_dso_stm32_dfu_bootloa.Screen.SafeInit.{pin_mode-Safe, digital_write-Safe}
use ln_dso_stm32_dfu_bootloa.Loop.{
  systick_ctrl, systick_load, systick_current_value, start_tick, usb_cntr_pwdn, pa12, setup_for_usb,
}

module _ (cfg : Config) where
  -- A load and a store of one of the registers of the clocks.
  update-Safe :
      (a v : ℕ) (m : Machine)
      → 0x40000000 ≤ a
      → a ≢ flash_ar
      → IsSafeSoFar cfg m
      → IsSafeSoFar cfg (store word a v (load word a m).1)
  update-Safe a v m lo ne h = store-Safe cfg a v _ lo ne (load-Safe cfg word a m h)

  start_hse-Safe :
      (m : Machine) (p : Starts m.answer) → IsSafeSoFar cfg m → IsSafeSoFar cfg (start_hse m p)
  unfolding start_hse
  start_hse-Safe m p h = record {
    safe =
        poll-All (IsSafe cfg) (p.hse (read word rcc_cr ∷ m.log) (value m.answer m.log word rcc_cr))
          tt ((omega arith, λ e. absurd (omega arith)), (tt, h.safe));
    layout = h.layout;
  }

  start_pll-Safe :
      (m : Machine) (p : Starts m.answer) → IsSafeSoFar cfg m → IsSafeSoFar cfg (start_pll m p)
  unfolding start_pll
  start_pll-Safe m p h = record {
    safe =
        poll-All (IsSafe cfg) (p.pll (read word rcc_cr ∷ m.log) (value m.answer m.log word rcc_cr))
          tt ((omega arith, λ e. absurd (omega arith)), (tt, h.safe));
    layout = h.layout;
  }

  clock_setup-Safe :
      (m : Machine) (p : Starts m.answer)
      → IsSafeSoFar cfg m
      → IsSafeSoFar cfg (clock_setup_in_hse_8mhz_out_72mhz m p)
  unfolding clock_setup_in_hse_8mhz_out_72mhz set_prescalers set_latency select_pll
  clock_setup-Safe m p h = update-Safe rcc_cfgr _ _ (omega arith) (omega arith) (
      start_pll-Safe _ p (
        update-Safe flash_acr _ _ (omega arith) (omega arith)
          (update-Safe rcc_cfgr _ _ (omega arith) (omega arith) (start_hse-Safe m p h))))

  enable-Safe :
      (periph : Peripheral) (m : Machine)
      → IsSafeSoFar cfg m
      → Holds (λ m'. IsSafeSoFar cfg m') (ln_peripheral_enable periph m)
  unfolding ln_peripheral_enable set_bits
  enable-Safe gpio_a m h = some-Holds _ _ (update-Safe rcu_apb2en _ m (omega arith) (omega arith) h)
  enable-Safe gpio_b m h = some-Holds _ _ (update-Safe rcu_apb2en _ m (omega arith) (omega arith) h)
  enable-Safe gpio_c m h = some-Holds _ _ (update-Safe rcu_apb2en _ m (omega arith) (omega arith) h)
  enable-Safe af m h = some-Holds _ _ (update-Safe rcu_apb2en _ m (omega arith) (omega arith) h)
  enable-Safe other m h = none-Holds _

  start_tick-Safe : (m : Machine) → IsSafeSoFar cfg m → IsSafeSoFar cfg (start_tick m)
  unfolding start_tick
  start_tick-Safe m h = store-Safe cfg systick_ctrl _ _ (omega arith) (omega arith) (
      store-Safe cfg systick_load _ _ (omega arith) (omega arith) (
        store-Safe cfg systick_current_value _ _ (omega arith) (omega arith)
          (store-Safe cfg systick_ctrl _ m (omega arith) (omega arith) h)))

  pub setup_for_usb-Safe :
      (m : Machine) (p : Starts m.answer) (ticks : List ℕ)
      → IsSafeSoFar cfg m
      → Holds (λ r. IsSafeSoFar cfg r.0) (setup_for_usb m p ticks)
  unfolding setup_for_usb
  setup_for_usb-Safe m p ticks h =
      bind-Holds _ _ (enable-Safe gpio_a _ (clock_setup-Safe m p h)) (λ m1 h1.
        bind-Holds _ _ (enable-Safe gpio_b m1 h1) (λ m2 h2.
          bind-Holds _ _ (enable-Safe gpio_c m2 h2) (λ m3 h3.
            bind-Holds _ _ (enable-Safe af m3 h3) (λ m4 h4.
              bind-Holds _ _
                (pin_mode-Safe cfg pa12 output _ (
                  store-Safe cfg usb_cntr_reg usb_cntr_pwdn _ (omega arith) (omega arith)
                    (start_tick-Safe m4 h4)))
                (λ m5 h5. bind-Holds _ _ (trivial-Holds (x_delay 100 ticks)) (λ t _.
                  some-Holds _ _ (
                    digital_write-Safe cfg pa12 true _
                      (digital_write-Safe cfg pa12 false m5 h5))))))))
