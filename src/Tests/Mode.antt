-- ===== src/Tests/Mode.antt =====
-- The DFU mode from its start, on a machine whose clocks start.
use ln_dso_stm32_dfu_bootloa.Common.{
  ℕ, zero, suc, ◌+◌, ◌<◌, ◌≡◌, refl, true, List, [], ◌∷◌, some, u32, length-replicate, replicate,
  arith, ◌∙◌, sym, ap, get_or, ◌++◌,
}
use mathlib.Core.List.{append-nil}
use ln_dso_stm32_dfu_bootloa.Machine.{Machine}
use ln_dso_stm32_dfu_bootloa.Config.{stm32f103}
use ln_dso_stm32_dfu_bootloa.Stubs.{x_delay, delay_until}
use ln_dso_stm32_dfu_bootloa.Board.{ln_pin_mode, ln_peripheral_enable}
use ln_dso_stm32_dfu_bootloa.Usb.State.{Usb}
use ln_dso_stm32_dfu_bootloa.Usb.Receive.{UsbValid}
use ln_dso_stm32_dfu_bootloa.Usb.Safe.{Layout}
use ln_dso_stm32_dfu_bootloa.Screen.Ili.{
  Ili, ili_init, send_sequence, set_pins, set_pin_to_default, ili_read_register_32, pin_modes,
}
use ln_dso_stm32_dfu_bootloa.Loop.{Progress, setup_for_usb, start_usb, draw_if}
use ln_dso_stm32_dfu_bootloa.Loop.Ends.{EndsWell}
use ln_dso_stm32_dfu_bootloa.Loop.Draws.{IsGoing, ArePictures}
use ln_dso_stm32_dfu_bootloa.Loop.Safe.{IsSafeProgress, RoundsFit}
use ln_dso_stm32_dfu_bootloa.Mode.{before_loop, dfu_mode}
use ln_dso_stm32_dfu_bootloa.Mode.Safe.{dfu_mode-IsGood}
use ln_dso_stm32_dfu_bootloa.Screen.Shows.{run_lcd-shows}
use ln_dso_stm32_dfu_bootloa.Tests.{sound, at_start-IsValid}
use ln_dso_stm32_dfu_bootloa.Tests.Usb.{asked}
use ln_dso_stm32_dfu_bootloa.Tests.Startup.{clocked, clocked-Starts}
use ln_dso_stm32_dfu_bootloa.Tests.Screen.{
  plain, plain-IsDecoder, Passes, six_steps, grey, unset, has_ended, result, ended,
}

get_or-replicate : (n k : ℕ) → k < n → (x d : List ℕ) → get_or (replicate n x) k d ≡ x
get_or-replicate zero k lt x d = absurd (omega arith)
get_or-replicate (suc n) zero lt x d = refl
get_or-replicate (suc n) (suc k) lt x d = get_or-replicate n k (omega arith) x d

six_steps-ArePictures : ArePictures plain Passes six_steps
six_steps-ArePictures = record {
  picture = λ step lt. (replicate 252 0x81, [], of_step step lt, length-replicate {A = ℕ} 252 0x81);
}
  where
    of_step : (step : ℕ) → step < 6 → get_or six_steps step [] ≡ replicate 252 0x81 ++ []
    of_step step lt =
        get_or-replicate 6 step lt (replicate 252 0x81) [] ∙ sym (append-nil (replicate 252 0x81))

abbrev at_reset : Usb
at_reset = record asked { machine = clocked }

at_reset-UsbValid : UsbValid at_reset
at_reset-UsbValid = record { dfu = at_start-IsValid; stage = tt }

clocked-Layout : Layout clocked.answer
clocked-Layout = record { btable = λ log. refl; tx = λ log. omega arith }

-- The counter in the delay of setupForUsb and in the four of ili_init, then in the loop.
abbrev counter : List ℕ
counter = 0 ∷ 101 ∷ 102 ∷ 123 ∷ 124 ∷ 175 ∷ 176 ∷ 327 ∷ 328 ∷ 479 ∷ 480 ∷ 481 ∷ []

abbrev set_up : Machine × List ℕ
set_up = result (clocked, []) (setup_for_usb clocked clocked-Starts counter)

set_up_ended : has_ended (setup_for_usb clocked clocked-Starts counter) ≡ true
unfolding setup_for_usb ln_peripheral_enable ln_pin_mode x_delay delay_until
set_up_ended = refl

abbrev awake : Ili × Machine × List ℕ
awake = result (unset, clocked, []) (ili_init unset set_up.0 set_up.1)

awake_ended : has_ended (ili_init unset set_up.0 set_up.1) ≡ true
unfolding ili_init set_pins set_pin_to_default ln_pin_mode x_delay delay_until send_sequence
    ili_read_register_32 pin_modes setup_for_usb ln_peripheral_enable
awake_ended = refl

awake_ticks : awake.2 ≡ 480 ∷ 481 ∷ []
unfolding ili_init set_pins set_pin_to_default ln_pin_mode x_delay delay_until send_sequence
    ili_read_register_32 pin_modes setup_for_usb ln_peripheral_enable
awake_ticks = refl

abbrev wide : Ili
wide = record awake.0 { tftwidth = 320; tftheight = 240 }

lit :
    (m : Machine) × (before_loop plain grey clocked clocked-Starts unset counter
      ≡ some (wide, m, 480 ∷ 481 ∷ []))
unfolding before_loop
lit =
    let shown =
      run_lcd-shows plain Passes plain-IsDecoder grey grey [] unset awake.0 set_up.0 awake.1
        set_up.1 awake.2 (ended (unset, clocked, []) (ili_init unset set_up.0 set_up.1) awake_ended)
        (append-nil grey) (length-replicate {A = ℕ} 520 0xaa) in
    (
      shown.0,
      rw (ended (clocked, []) (setup_for_usb clocked clocked-Starts counter) set_up_ended)
          (shown.1 ∙ ap (λ ts. some (wide, shown.0, ts)) awake_ticks),
    )

lit-RoundsFit :
    RoundsFit plain six_steps stm32f103
      (481 ∷ [])
      (u32 (480 + 100))
      0
      (start_usb stm32f103 (record at_reset { machine = lit.0 }))
unfolding start_usb draw_if
lit-RoundsFit = (omega arith, tt)

dfu_mode-IsGood_example :
    (r : Progress) × (dfu_mode plain grey six_steps stm32f103 at_reset clocked-Starts unset counter
      ≡ some r)
    × IsGoing r
    × IsSafeProgress stm32f103 r
    × EndsWell r
dfu_mode-IsGood_example =
    dfu_mode-IsGood plain Passes plain-IsDecoder six_steps six_steps-ArePictures stm32f103 grey
      at_reset clocked-Starts unset wide (lit.0) 480 counter (481 ∷ []) sound at_reset-UsbValid refl
      clocked-Layout tt (lit.1) lit-RoundsFit
