-- ===== src/Loop/Draws.antt =====
-- The pictures in the loop of `runDfu` of src/dfu.cpp.
use ln_dso_stm32_dfu_bootloa.Common.{
  ℕ, ◌+◌, ◌%◌, ◌<◌, ◌≡◌, refl, Bool, true, false, List, [], ◌∷◌, ◌++◌, some, u32, length, get_or,
  ltb, arith, Bool-cases, inl, inr,
}
use ln_dso_stm32_dfu_bootloa.Machine.{Machine}
use ln_dso_stm32_dfu_bootloa.Config.{Config}
use ln_dso_stm32_dfu_bootloa.Usb.State.{Usb}
use ln_dso_stm32_dfu_bootloa.Usb.Poll.{do_usb_poll}
use ln_dso_stm32_dfu_bootloa.Screen.Hs.{Heatshrink}
use ln_dso_stm32_dfu_bootloa.Screen.Lcd.{nb_step}
use ln_dso_stm32_dfu_bootloa.Screen.Stream.{IsDecoder}
use ln_dso_stm32_dfu_bootloa.Screen.Shows.{animate-shows}
use ln_dso_stm32_dfu_bootloa.Loop.{
  Progress, reset, halted, running, draw_if, is_manifest, dfu_rounds, run_dfu, start_usb,
}

-- No assertion has stopped the loop.
abbrev pub IsGoing : Progress → Type 0
IsGoing (reset u) = Unit
IsGoing halted = ⊥
IsGoing (running next_tick step u) = Unit

module _ (h : Heatshrink) (Codes : h.Decoder → List ℕ → List ℕ → Type 0) where
  -- Each compressed picture gives the 252 bytes of one, or more.
  pub record ArePictures (steps : List (List ℕ)) : Type 0 where
    pub picture :
        (step : ℕ)
        → step < nb_step
        → (bs : List ℕ) × (more : List ℕ) × Codes h.reset (get_or steps step []) (bs ++ more)
          × (length bs ≡ 252)

  module _ (laws : IsDecoder h Codes) (steps : List (List ℕ)) (pictures : ArePictures steps) where
    draw_if-returns :
        (due : Bool) (step : ℕ) (m : Machine)
        → step < nb_step
        → (step' : ℕ) × (m' : Machine) × (draw_if h steps due step m ≡ some (step', m'))
          × (step' < nb_step)
    unfolding draw_if
    draw_if-returns true step m lt =
        let p = pictures.picture step lt in
        let a = animate-shows h Codes laws steps step p.0 p.1 m lt p.2 p.3 in
        ((step + 1) % nb_step, a.0, a.1, omega arith)
    draw_if-returns false step m lt = (step, m, refl, lt)

    dfu_rounds-IsGoing :
        (cfg : Config) (ticks : List ℕ) (next_tick step : ℕ) (u : Usb)
        → step < nb_step
        → IsGoing (dfu_rounds h steps cfg ticks next_tick step u)
    unfolding dfu_rounds
    dfu_rounds-IsGoing cfg [] next_tick step u lt = tt
    dfu_rounds-IsGoing cfg (t ∷ ticks) next_tick step u lt =
        let d = draw_if-returns (ltb next_tick t) step (do_usb_poll cfg u).machine lt in
        elim (Bool-cases (is_manifest (do_usb_poll cfg u).dfu.state)) [
          | inl done ↦ rw done tt
          | inr going ↦ rw (going, d.2) (dfu_rounds-IsGoing cfg ticks _ d.0 _ d.3)
        ]

    pub run_dfu-IsGoing :
        (cfg : Config) (now : ℕ) (ticks : List ℕ) (u : Usb)
        → IsGoing (run_dfu h steps cfg now ticks u)
    unfolding run_dfu
    run_dfu-IsGoing cfg now ticks u =
        dfu_rounds-IsGoing cfg ticks (u32 (now + 100)) 0 (start_usb cfg u) (omega arith)
