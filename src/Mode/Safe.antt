-- ===== src/Mode/Safe.antt =====
-- The DFU mode leaves the boot loader's flash alone, and ends in the manifest state only.
use ln_dso_stm32_dfu_bootloa.Common.{
  Holds, bind-Holds, ℕ, ◌+◌, ◌≡◌, refl, false, List, ◌∷◌, some, u32,
}
use ln_dso_stm32_dfu_bootloa.Machine.{Machine}
use ln_dso_stm32_dfu_bootloa.Config.{Config, IsSound}
use ln_dso_stm32_dfu_bootloa.Clock.{Starts}
use ln_dso_stm32_dfu_bootloa.Flash.Safe.{AllSafe}
use ln_dso_stm32_dfu_bootloa.Usb.State.{Usb}
use ln_dso_stm32_dfu_bootloa.Usb.Receive.{UsbValid}
use ln_dso_stm32_dfu_bootloa.Usb.Invariant.{machine-UsbValid}
use ln_dso_stm32_dfu_bootloa.Usb.Safe.{Layout, IsSafeSoFar}
use ln_dso_stm32_dfu_bootloa.Screen.Ili.{Ili}
use ln_dso_stm32_dfu_bootloa.Screen.Hs.{Heatshrink}
use ln_dso_stm32_dfu_bootloa.Screen.SafeInit.{run_lcd-Safe}
use ln_dso_stm32_dfu_bootloa.Loop.{Progress, is_manifest, start_usb, run_dfu}
use ln_dso_stm32_dfu_bootloa.Loop.Draws.{IsGoing, ArePictures, run_dfu-IsGoing}
use ln_dso_stm32_dfu_bootloa.Screen.Stream.{IsDecoder}
use ln_dso_stm32_dfu_bootloa.Loop.Ends.{EndsWell, run_dfu-EndsWell}
use ln_dso_stm32_dfu_bootloa.Loop.Safe.{IsSafeProgress, RoundsFit, run_dfu-Safe}
use ln_dso_stm32_dfu_bootloa.Loop.Start.{setup_for_usb-Safe}
use ln_dso_stm32_dfu_bootloa.Mode.{before_loop, loop_from, dfu_mode}

before_loop-Safe :
    (cfg : Config) (h : Heatshrink) (dfu_usb : List ℕ) (m : Machine) (p : Starts m.answer) (g : Ili)
    (ticks : List ℕ)
    → IsSafeSoFar cfg m
    → Holds (λ r. IsSafeSoFar cfg r.1) (before_loop h dfu_usb m p g ticks)
unfolding before_loop
before_loop-Safe cfg h dfu_usb m p g ticks a =
    bind-Holds _ _ (setup_for_usb-Safe cfg m p ticks a)
      (λ r b. run_lcd-Safe cfg h dfu_usb g r.0 r.1 b)

module _ (h : Heatshrink) (Codes : h.Decoder → List ℕ → List ℕ → Type 0) where
  module _ (laws : IsDecoder h Codes) (steps : List (List ℕ))
      (pictures : ArePictures h Codes steps) where
    -- In a sound configuration, with heatshrink as documented and six pictures of the animation, from
    -- valid globals in a state other than the manifest state and safe accesses so far, on a peripheral
    -- that keeps its buffer table at offset 0 and the TX buffer of the control endpoint in the packet
    -- memory: once setupForUsb and runLcd have returned, runDfu runs, whatever the host sends, without
    -- a failed assertion; the whole DFU mode stores half-words only in the application's flash and in
    -- the ports' registers and erases only the application's pages; and it asks for the reset in the
    -- manifest state and in no other, if at the start of each round the bytes of the pending command
    -- stay below the top of the address space.
    pub dfu_mode-IsGood :
        (cfg : Config) (dfu_usb : List ℕ) (u : Usb) (p : Starts u.machine.answer) (g g' : Ili)
        (m' : Machine) (now : ℕ) (ticks ticks' : List ℕ)
        → IsSound cfg
        → UsbValid u
        → is_manifest u.dfu.state ≡ false
        → Layout u.machine.answer
        → AllSafe cfg u.machine
        → before_loop h dfu_usb u.machine p g ticks ≡ some (g', m', now ∷ ticks')
        → RoundsFit h steps cfg ticks'
            (u32 (now + 100))
            0
            (start_usb cfg (record u { machine = m' }))
        → (r : Progress) × (dfu_mode h dfu_usb steps cfg u p g ticks ≡ some r)
          × IsGoing r
          × IsSafeProgress cfg r
          × EndsWell r
    unfolding dfu_mode loop_from
    dfu_mode-IsGood cfg dfu_usb u p g g' m' now ticks ticks' sound v e l a begun fits =
        let w : Usb = record u { machine = m' } in
        let valid = machine-UsbValid m' u v in
        let before =
          before_loop-Safe cfg h dfu_usb u.machine p g ticks (record { safe = a; layout = l }) in
        (
          run_dfu h steps cfg now ticks' w,
          rw begun refl,
          run_dfu-IsGoing h Codes laws steps pictures cfg now ticks' w,
          run_dfu-Safe h steps cfg sound now ticks' w valid fits
              (before.holds (g', m', now ∷ ticks') begun),
          run_dfu-EndsWell h steps cfg now ticks' w e valid,
        )
