-- ===== src/Mode.antt =====
-- The DFU mode as `main` of src/main.cpp enters it: `setupForUsb`, `runLcd` and `runDfu` in turn.
pub mod Safe
use ln_dso_stm32_dfu_bootloa.Common.{
  ◌>>=◌, Holds, none-Holds, some-Holds, bind-Holds, ℕ, ◌+◌, ◌<◌, ◌≡◌, refl, Bool, true, false, List,
  [], ◌∷◌, Option, none, some, u32, arith,
}
use ln_dso_stm32_dfu_bootloa.Machine.{Machine}
use ln_dso_stm32_dfu_bootloa.Config.{Config, IsSound}
use ln_dso_stm32_dfu_bootloa.Flash.Safe.{AllSafe}
use ln_dso_stm32_dfu_bootloa.Clock.{Starts}
use ln_dso_stm32_dfu_bootloa.Usb.State.{Usb}
use ln_dso_stm32_dfu_bootloa.Usb.Receive.{UsbValid}
use ln_dso_stm32_dfu_bootloa.Usb.Invariant.{machine-UsbValid}
use ln_dso_stm32_dfu_bootloa.Usb.Safe.{Layout, IsSafeSoFar}
use ln_dso_stm32_dfu_bootloa.Screen.Ili.{Ili}
use ln_dso_stm32_dfu_bootloa.Screen.Hs.{Heatshrink}
use ln_dso_stm32_dfu_bootloa.Screen.Lcd.{run_lcd}
use ln_dso_stm32_dfu_bootloa.Screen.SafeInit.{run_lcd-Safe}
use ln_dso_stm32_dfu_bootloa.Loop.{Progress, setup_for_usb, start_usb, run_dfu}
use ln_dso_stm32_dfu_bootloa.Loop.Ends.{EndsWell, run_dfu-EndsWell}
use ln_dso_stm32_dfu_bootloa.Loop.Safe.{IsSafeProgress, RoundsFit, run_dfu-Safe}
use ln_dso_stm32_dfu_bootloa.Loop.Start.{setup_for_usb-Safe}

module _ (h : Heatshrink) where
  -- Up to the loop; `none` while a delay lasts, or where the code stands still.
  unfoldable pub before_loop :
      List ℕ → (m : Machine) → Starts m.answer → Ili → List ℕ → Option (Ili × Machine × List ℕ)
  before_loop dfu_usb m p g ticks = do
    (m, ticks) ← setup_for_usb m p ticks
    run_lcd h dfu_usb g m ticks

  -- The loop from the next value of the counter on; `none` while there is none. The globals of the
  -- display are not read again.
  unfoldable pub loop_from : List (List ℕ) → Config → Usb → Ili × Machine × List ℕ → Option Progress
  loop_from steps cfg u (g, m, []) = none
  loop_from steps cfg u (g, m, now ∷ ticks) =
      some (run_dfu h steps cfg now ticks (record u { machine = m }))

  unfoldable pub dfu_mode :
      List ℕ
      → List (List ℕ)
      → Config
      → (u : Usb) → Starts u.machine.answer
      → Ili
      → List ℕ
      → Option Progress
  dfu_mode dfu_usb steps cfg u p g ticks =
      before_loop dfu_usb u.machine p g ticks >>= loop_from steps cfg u
