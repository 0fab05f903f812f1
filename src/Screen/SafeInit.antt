-- ===== src/Screen/SafeInit.antt =====
-- The accesses of `ili_init` and of `runLcd`.
use ln_dso_stm32_dfu_bootloa.Common.{
  Holds, none-Holds, some-Holds, bind-Holds, if-Holds, trivial-Holds, elim-Holds, ℕ, zero, suc, ◌+◌,
  ◌*◌, ◌/◌, ◌%◌, ◌≤◌, ◌≢◌, Bool, true, false, List, u8, u32, get_or, drop, ltb, ◌==◌, if◌then◌else◌,
  arith,
}
use ln_dso_stm32_dfu_bootloa.Machine.{Machine, word}
use ln_dso_stm32_dfu_bootloa.Config.{Config}
use ln_dso_stm32_dfu_bootloa.Stubs.{x_delay}
use ln_dso_stm32_dfu_bootloa.Board.{
  GpioMode, gpio, gpio_ctl0, gpio_ctl1, input_pulldown, mode_bits, pull, ln_pin_mode,
  ln_digital_write, ln_read_port, input_pullup, output,
}
use ln_dso_stm32_dfu_bootloa.Flash.{flash_ar}
use ln_dso_stm32_dfu_bootloa.Usb.Safe.{IsSafeSoFar, store-Safe, store_port-Safe, load-Safe}
use ln_dso_stm32_dfu_bootloa.Screen.Ili.{
  Ili, ili_cs_active, gpio_brr, gpio_bsrr, ili_rd, ili_cs, pb0, pc13, dso_reset_pin, dso_reset_off,
  dso_wake_on, ili_rd_active, ili_rd_idle, write_cmd_param, fake_delay_command, send_sequence,
  pin_modes, read_8, read_bytes, ili_read_register_32, set_pin_to_default, set_pins, ili_init,
}
use ln_dso_stm32_dfu_bootloa.Screen.Hs.{Heatshrink}
use ln_dso_stm32_dfu_bootloa.Screen.Lcd.{run_lcd}
use ln_dso_stm32_dfu_bootloa.Screen.SafeDraw.{draw_hs_bitmap-Safe}
use ln_dso_stm32_dfu_bootloa.Screen.Safe.{
  dc_dat-Safe, command-Safe, write_cmd_param-Safe, fill_screen-Safe, rotate-Safe,
}

module _ (cfg : Config) where
  send_sequence-Safe :
      (fuel : ℕ) (bytes : List ℕ) (m : Machine) (ticks : List ℕ)
      → IsSafeSoFar cfg m
      → Holds (λ r. IsSafeSoFar cfg r.0) (send_sequence fuel bytes m ticks)
  unfolding send_sequence
  send_sequence-Safe zero bytes m ticks a = none-Holds _
  send_sequence-Safe (suc fuel) bytes m ticks a =
      let cmd = get_or bytes 0 0 in
      let len = get_or bytes 1 0 in
      let params = drop 2 bytes in
      if-Holds (cmd == 0) _ _ (some-Holds _ (m, ticks) a) (
        if-Holds (cmd == fake_delay_command) _ _
          (bind-Holds (x_delay len ticks) (send_sequence fuel params m)
            (record { holds = λ _ _. tt }) (λ ticks' _. send_sequence-Safe fuel params m ticks' a))
          (send_sequence-Safe fuel (drop (2 + len) bytes) (write_cmd_param cmd len params m) ticks
            (write_cmd_param-Safe cfg cmd len params m a)))

  pull-Safe :
      (mode : GpioMode) (pin shift : ℕ) (m : Machine)
      → IsSafeSoFar cfg m
      → IsSafeSoFar cfg (pull mode (gpio pin) shift m)
  pull-Safe input_pullup pin shift m a = store-Safe cfg _ _ m (omega arith) (omega arith) a
  pull-Safe input_pulldown pin shift m a = store-Safe cfg _ _ m (omega arith) (omega arith) a
  pull-Safe _ pin shift m a = a

  pub pin_mode-Safe :
      (pin : ℕ) (mode : GpioMode) (m : Machine)
      → IsSafeSoFar cfg m
      → Holds (λ m'. IsSafeSoFar cfg m') (ln_pin_mode pin mode m)
  unfolding ln_pin_mode
  pin_mode-Safe pin mode m a =
      let port = gpio (pin / 16) in
      let ctl = if ltb 7 (pin % 16) then port + gpio_ctl1 else port + gpio_ctl0 in
      let above : 0x40000000 ≤ ctl = ground arith in
      let other : ctl ≢ flash_ar = ground arith in
      elim-Holds (mode_bits mode) _ (λ value. some-Holds _ _ (
        store-Safe cfg ctl _ _ above other
          (load-Safe cfg word ctl _ (pull-Safe mode (pin / 16) (pin % 16) m a))))

  pub digital_write-Safe :
      (pin : ℕ) (value : Bool) (m : Machine)
      → IsSafeSoFar cfg m
      → IsSafeSoFar cfg (ln_digital_write pin value m)
  unfolding ln_digital_write
  digital_write-Safe pin value m a = store-Safe cfg _ _ m (omega arith) (omega arith) a

  pin_modes-Safe :
      (n pin : ℕ) (mode : GpioMode) (m : Machine)
      → IsSafeSoFar cfg m
      → Holds (λ m'. IsSafeSoFar cfg m') (pin_modes n pin mode m)
  unfolding pin_modes
  pin_modes-Safe zero pin mode m a = some-Holds _ m a
  pin_modes-Safe (suc n) pin mode m a =
      bind-Holds (ln_pin_mode pin mode m) (λ m'. pin_modes n (pin + 1) mode m')
        (pin_mode-Safe pin mode m a) (λ m' a'. pin_modes-Safe n (pin + 1) mode m' a')

  read_8-Safe : (m : Machine) → IsSafeSoFar cfg m → IsSafeSoFar cfg (read_8 m).1
  unfolding read_8 ili_rd_active ili_rd_idle ln_read_port
  read_8-Safe m a = store-Safe cfg (gpio_bsrr 0) ili_rd _ (omega arith) (omega arith) (
      load-Safe cfg word _ _
        (store_port-Safe cfg (gpio_brr 0) ili_rd m (omega arith) (omega arith) a))

  read_bytes-Safe :
      (n u : ℕ) (m : Machine) → IsSafeSoFar cfg m → IsSafeSoFar cfg (read_bytes n u m).1
  unfolding read_bytes
  read_bytes-Safe zero u m a = a
  read_bytes-Safe (suc n) u m a =
      read_bytes-Safe n (u32 (u * 256 + (read_8 m).0)) (read_8 m).1 (read_8-Safe m a)

  read_register_32-Safe :
      (r : ℕ) (m : Machine)
      → IsSafeSoFar cfg m
      → Holds (λ p. IsSafeSoFar cfg p.1) (ili_read_register_32 r m)
  unfolding ili_read_register_32
  read_register_32-Safe r m a =
      bind-Holds _ _
        (pin_modes-Safe 8 pb0 input_pullup _ (dc_dat-Safe cfg _ (command-Safe cfg (u8 r) m a)))
        (λ m' a'.
          bind-Holds _ _ (pin_modes-Safe 8 pb0 output _ (read_bytes-Safe 4 0 m' a'))
            (λ m'' a''. some-Holds _ _ a''))

  set_pin-Safe :
      (pin : ℕ) (m : Machine)
      → IsSafeSoFar cfg m
      → Holds (λ m'. IsSafeSoFar cfg m') (set_pin_to_default pin m)
  unfolding set_pin_to_default
  set_pin-Safe pin m a = pin_mode-Safe pin output _ (digital_write-Safe pin true m a)

  set_pins-Safe :
      (n pin : ℕ) (m : Machine)
      → IsSafeSoFar cfg m
      → Holds (λ m'. IsSafeSoFar cfg m') (set_pins n pin m)
  unfolding set_pins
  set_pins-Safe zero pin m a = some-Holds _ m a
  set_pins-Safe (suc n) pin m a =
      bind-Holds (set_pin_to_default pin m) (λ m'. set_pins n (pin + 1) m') (set_pin-Safe pin m a)
        (λ m' a'. set_pins-Safe n (pin + 1) m' a')

  init-Safe :
      (g : Ili) (m : Machine) (ticks : List ℕ)
      → IsSafeSoFar cfg m
      → Holds (λ r. IsSafeSoFar cfg r.1) (ili_init g m ticks)
  unfolding ili_init ili_cs_active
  init-Safe g m ticks a = bind-Holds _ _ (set_pins-Safe 10 pb0 m a) (λ m1 a1.
      bind-Holds _ _ (set_pin-Safe dso_reset_pin m1 a1) (λ m2 a2.
        bind-Holds _ _ (set_pins-Safe 3 pc13 m2 a2) (λ m3 a3.
          bind-Holds _ _ (trivial-Holds (x_delay 20 ticks)) (λ t1 _.
            bind-Holds _ _ (trivial-Holds (x_delay 50 t1)) (λ t2 _.
              bind-Holds _ _ (send_sequence-Safe 5 dso_reset_off _ t2 (awake m3 a3)) (λ r4 a4.
                bind-Holds _ _ (send_sequence-Safe 7 dso_wake_on r4.0 r4.1 a4) (λ r5 a5.
                  bind-Holds _ _ (read_register_32-Safe 0xd3 r5.0 a5) (λ r6 a6.
                    bind-Holds _ _ (read_register_32-Safe 0x04 r6.1 a6)
                      (λ r7 a7. some-Holds _ _ a7)))))))))
    where
      awake :
          (m : Machine)
          → IsSafeSoFar cfg m
          → IsSafeSoFar cfg (
              ili_cs_active
                (ln_digital_write dso_reset_pin true (ln_digital_write dso_reset_pin false m)))
      awake m a =
          store_port-Safe cfg (gpio_brr 2) ili_cs _ (omega arith) (omega arith)
            (digital_write-Safe _ true _ (digital_write-Safe _ false m a))

  pub run_lcd-Safe :
      (h : Heatshrink) (dfu_usb : List ℕ) (g : Ili) (m : Machine) (ticks : List ℕ)
      → IsSafeSoFar cfg m
      → Holds (λ r. IsSafeSoFar cfg r.1) (run_lcd h dfu_usb g m ticks)
  unfolding run_lcd
  run_lcd-Safe h dfu_usb g m ticks a = bind-Holds _ _ (init-Safe g m ticks a) (λ r b.
      bind-Holds _ _
        (draw_hs_bitmap-Safe cfg h _ _ _ _ dfu_usb _
          (fill_screen-Safe cfg 0 _ _ (rotate-Safe cfg 1 r.0 r.1 b)))
        (λ m' c. some-Holds _ _ c))
