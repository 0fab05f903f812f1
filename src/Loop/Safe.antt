-- ===== src/Loop/Safe.antt =====
-- The accesses of `runDfu` in src/dfu.cpp, with the polls and the pictures.
use ln_dso_stm32_dfu_bootloa.Common.{
  Holds, some-Holds, ℕ, zero, suc, ◌+◌, refl, Bool, true, false, List, [], ◌∷◌, Option, none, some,
  u32, ltb, arith, Bool-cases, inl, inr, if◌then◌else◌,
}
use ln_dso_stm32_dfu_bootloa.Machine.{Machine, byte, word, set_bits}
use ln_dso_stm32_dfu_bootloa.Config.{Config, IsSound}
use ln_dso_stm32_dfu_bootloa.Flash.Safe.{AllSafe}
use ln_dso_stm32_dfu_bootloa.Dfu.Serial.{unique_id, hex_digits, get_dev_unique_id}
use ln_dso_stm32_dfu_bootloa.Usb.Regs.{usb_cntr_reg, usb_btable_reg, usb_istr_reg}
use ln_dso_stm32_dfu_bootloa.Usb.State.{Usb}
use ln_dso_stm32_dfu_bootloa.Usb.Poll.{usb_init, do_usb_poll, rcc_apb1enr}
use ln_dso_stm32_dfu_bootloa.Usb.Receive.{UsbValid}
use ln_dso_stm32_dfu_bootloa.Usb.Invariant.{machine-UsbValid, poll-UsbValid}
use ln_dso_stm32_dfu_bootloa.Usb.Safe.{IsSafeSoFar, load-Safe, store-Safe, set_reg-Safe}
use ln_dso_stm32_dfu_bootloa.Usb.Stages.{TargetFits}
use ln_dso_stm32_dfu_bootloa.Usb.Boundary.{poll-Keeps}
use ln_dso_stm32_dfu_bootloa.Screen.Hs.{Heatshrink}
use ln_dso_stm32_dfu_bootloa.Screen.SafeDraw.{animate-Safe}
use ln_dso_stm32_dfu_bootloa.Loop.{
  Progress, reset, halted, running, go_on, draw_if, is_manifest, scb_aircr, full_system_reset,
  dfu_rounds, start_usb, run_dfu,
}

-- The machine that the loop leaves, if no assertion has stopped it, has made safe accesses only.
abbrev pub IsSafeProgress : Config → Progress → Type 0
IsSafeProgress cfg (reset u) = AllSafe cfg u.machine
IsSafeProgress cfg halted = Unit
IsSafeProgress cfg (running next_tick step u) = AllSafe cfg u.machine

-- What is asked of the round after a picture.
abbrev pub AfterDraw : Option (ℕ × Machine) → (ℕ → Machine → Type 0) → Type 0
AfterDraw none next = Unit
AfterDraw (some (step, m)) next = next step m

module _ (cfg : Config) where
  hex_digits-Safe :
      (n addr : ℕ) (m : Machine) → IsSafeSoFar cfg m → IsSafeSoFar cfg (hex_digits n addr m).1
  unfolding hex_digits
  hex_digits-Safe zero addr m a = a
  hex_digits-Safe (suc n) addr m a =
      let twice = load-Safe cfg byte addr _ (load-Safe cfg byte addr m a) in
      hex_digits-Safe n (u32 (addr + 1)) _ twice

  usb_init-Safe : (m : Machine) → IsSafeSoFar cfg m → IsSafeSoFar cfg (usb_init m)
  unfolding usb_init set_bits
  usb_init-Safe m a = set_reg-Safe cfg usb_cntr_reg _ _ (omega arith) (omega arith) (
      set_reg-Safe cfg usb_istr_reg 0 _ (omega arith) (omega arith) (
        set_reg-Safe cfg usb_btable_reg 0 _ (omega arith) (omega arith) (
          set_reg-Safe cfg usb_cntr_reg 0 _ (omega arith) (omega arith) (
            store-Safe cfg rcc_apb1enr _ _ (omega arith) (omega arith)
              (load-Safe cfg word rcc_apb1enr m a)))))

  pub start_usb-Safe :
      (u : Usb) → IsSafeSoFar cfg u.machine → IsSafeSoFar cfg (start_usb cfg u).machine
  unfolding start_usb get_dev_unique_id
  start_usb-Safe u a = usb_init-Safe _ (hex_digits-Safe 9 unique_id u.machine a)

module _ (h : Heatshrink) (steps : List (List ℕ)) (cfg : Config) where
  -- At the start of each round the bytes of the pending command stay below the top of the address
  -- space.
  abbrev pub RoundsFit : List ℕ → ℕ → ℕ → Usb → Type 0
  RoundsFit [] next_tick step u = Unit
  RoundsFit (t ∷ ticks) next_tick step u =
      TargetFits u
      × AfterDraw (draw_if h steps (ltb next_tick t) step (do_usb_poll cfg u).machine) (λ step m.
        RoundsFit ticks (if ltb next_tick t then u32 (next_tick + 100) else next_tick) step
          (record (do_usb_poll cfg u) { machine = m }))

  go_on-Safe :
      (o : Option (ℕ × Machine)) (next : ℕ → Machine → Progress) (fits : ℕ → Machine → Type 0)
      → Holds (λ r. IsSafeSoFar cfg r.1) o
      → AfterDraw o fits
      → ((step : ℕ) (m : Machine)
          → IsSafeSoFar cfg m
          → fits step m
          → IsSafeProgress cfg (next step m))
      → IsSafeProgress cfg (go_on o next)
  go_on-Safe none next fits a f g = tt
  go_on-Safe (some (step, m)) next fits a f g = g step m (a.holds (step, m) refl) f

  draw_if-Safe :
      (due : Bool) (step : ℕ) (m : Machine)
      → IsSafeSoFar cfg m
      → Holds (λ r. IsSafeSoFar cfg r.1) (draw_if h steps due step m)
  unfolding draw_if
  draw_if-Safe true step m a = animate-Safe cfg h steps step m a
  draw_if-Safe false step m a = some-Holds _ (step, m) a

  reset-Safe : (m : Machine) → IsSafeSoFar cfg m → AllSafe cfg (full_system_reset m)
  unfolding full_system_reset
  reset-Safe m a = (store-Safe cfg scb_aircr _ m (omega arith) (omega arith) a).safe

  module _ (sound : IsSound cfg) where
    dfu_rounds-Safe :
        (ticks : List ℕ) (next_tick step : ℕ) (u : Usb)
        → UsbValid u
        → RoundsFit ticks next_tick step u
        → IsSafeSoFar cfg u.machine
        → IsSafeProgress cfg (dfu_rounds h steps cfg ticks next_tick step u)
    unfolding dfu_rounds
    dfu_rounds-Safe [] next_tick step u v fits a = a.safe
    dfu_rounds-Safe (t ∷ ticks) next_tick step u v fits a =
        let polled = poll-UsbValid cfg u v in
        let kept = (poll-Keeps cfg sound u v fits.0 (record { kept = a })).kept in
        elim (Bool-cases (is_manifest (do_usb_poll cfg u).dfu.state)) [
          | inl done ↦ rw done (reset-Safe (do_usb_poll cfg u).machine kept)
          | inr going ↦ rw going (
              go_on-Safe (draw_if h steps (ltb next_tick t) step (do_usb_poll cfg u).machine) _ _
                (draw_if-Safe (ltb next_tick t) step _ kept) (fits.1)
                (λ step' m b f.
                  dfu_rounds-Safe ticks _ step' _ (machine-UsbValid m (do_usb_poll cfg u) polled) f
                    b))
        ]

    start_usb-UsbValid : (u : Usb) → UsbValid u → UsbValid (start_usb cfg u)
    unfolding start_usb
    start_usb-UsbValid u v = record { dfu = v.dfu; stage = v.stage }

    pub run_dfu-Safe :
        (now : ℕ) (ticks : List ℕ) (u : Usb)
        → UsbValid u
        → RoundsFit ticks (u32 (now + 100)) 0 (start_usb cfg u)
        → IsSafeSoFar cfg u.machine
        → IsSafeProgress cfg (run_dfu h steps cfg now ticks u)
    unfolding run_dfu
    run_dfu-Safe now ticks u v fits a =
        dfu_rounds-Safe ticks (u32 (now + 100)) 0 (start_usb cfg u) (start_usb-UsbValid u v) fits
          (start_usb-Safe cfg u a)
