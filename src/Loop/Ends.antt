-- ===== src/Loop/Ends.antt =====
-- Where the loop of `runDfu` in src/dfu.cpp ends.
use ln_dso_stm32_dfu_bootloa.Common.{
  ℕ, ◌+◌, ◌<◌, ◌≡◌, refl, true, false, List, [], ◌∷◌, Option, none, some, u32, ltb, arith,
  Bool-cases, inl, inr, ◌++◌,
}
use ln_dso_stm32_dfu_bootloa.Machine.{Machine, store}
use ln_dso_stm32_dfu_bootloa.Machine.Trace.{stored_word}
use ln_dso_stm32_dfu_bootloa.Config.{Config}
use ln_dso_stm32_dfu_bootloa.Usb.State.{Usb}
use ln_dso_stm32_dfu_bootloa.Usb.Poll.{do_usb_poll}
use ln_dso_stm32_dfu_bootloa.Usb.Receive.{UsbValid}
use ln_dso_stm32_dfu_bootloa.Usb.Invariant.{machine-UsbValid, poll-UsbValid}
use ln_dso_stm32_dfu_bootloa.Stubs.{delay_until, x_delay}
use ln_dso_stm32_dfu_bootloa.Screen.Hs.{Heatshrink}
use ln_dso_stm32_dfu_bootloa.Loop.{
  Progress, reset, halted, running, go_on, draw_if, is_manifest, scb_aircr, full_system_reset,
  dfu_rounds, start_usb, run_dfu,
}

-- A reset is asked for in the manifest state only, and the loop goes on in any other; nothing is said
-- where an assertion has stopped it.
abbrev pub EndsWell : Progress → Type 0
EndsWell (reset u) =
    (is_manifest u.dfu.state ≡ true)
    × (stored_word u.machine.log scb_aircr ≡ some 0x05fa0004)
    × UsbValid u
EndsWell halted = Unit
EndsWell (running next_tick step u) = (is_manifest u.dfu.state ≡ false) × UsbValid u

go_on-EndsWell :
    (o : Option (ℕ × Machine)) (next : ℕ → Machine → Progress)
    → ((step : ℕ) (m : Machine) → EndsWell (next step m))
    → EndsWell (go_on o next)
go_on-EndsWell none next e = tt
go_on-EndsWell (some (step, m)) next e = e step m

module _ (h : Heatshrink) (steps : List (List ℕ)) where
  dfu_rounds-EndsWell :
      (cfg : Config) (ticks : List ℕ) (next_tick step : ℕ) (u : Usb)
      → is_manifest u.dfu.state ≡ false
      → UsbValid u
      → EndsWell (dfu_rounds h steps cfg ticks next_tick step u)
  unfolding dfu_rounds
  dfu_rounds-EndsWell cfg [] next_tick step u e v = (e, v)
  dfu_rounds-EndsWell cfg (t ∷ ticks) next_tick step u e v =
      elim (Bool-cases (is_manifest (do_usb_poll cfg u).dfu.state)) [
        | inl done ↦
            rw done (unfold full_system_reset store in (done, refl, machine-UsbValid _ _ polled))
        | inr going ↦ rw going (
            go_on-EndsWell (draw_if h steps (ltb next_tick t) step (do_usb_poll cfg u).machine) _
              (λ step' m.
                dfu_rounds-EndsWell cfg ticks _ step' _ going
                  (machine-UsbValid m (do_usb_poll cfg u) polled)))
      ]
    where
      polled : UsbValid (do_usb_poll cfg u)
      polled = poll-UsbValid cfg u v

  -- From a state that is not the manifest state and satisfies the invariant of the control
  -- endpoint, whatever the peripheral and the clock answer, `runDfu` asks for the reset only in the
  -- manifest state and never goes on in it, and it keeps the invariant, as long as no assertion stops
  -- the code.
  pub run_dfu-EndsWell :
      (cfg : Config) (now : ℕ) (ticks : List ℕ) (u : Usb)
      → is_manifest u.dfu.state ≡ false
      → UsbValid u
      → EndsWell (run_dfu h steps cfg now ticks u)
  unfolding run_dfu start_usb
  run_dfu-EndsWell cfg now ticks u e v =
      dfu_rounds-EndsWell cfg ticks (u32 (now + 100)) 0 _ e
        (record { dfu = v.dfu; stage = v.stage })

delay_until_ends :
    (tgt t : ℕ) (before after : List ℕ)
    → tgt < t
    → (rest : List ℕ) × (delay_until tgt (before ++ t ∷ after) ≡ some rest)
unfolding delay_until
delay_until_ends tgt t [] after lt = let e : ltb tgt t ≡ true = ground arith in (after, rw e refl)
delay_until_ends tgt t (b ∷ before) after lt = elim (Bool-cases (ltb tgt b)) [
  | inl past ↦ (before ++ t ∷ after, rw past refl)
  | inr early ↦ let r = delay_until_ends tgt t before after lt in (r.0, rw early (r.1))
]

-- `xDelay` ends as soon as the counter shows a value past its target, if the target does not wrap.
x_delay_ends :
    (ms now t : ℕ) (before after : List ℕ)
    → now + ms < t
    → t < 0x100000000
    → (rest : List ℕ) × (x_delay ms (now ∷ before ++ t ∷ after) ≡ some rest)
unfolding x_delay
x_delay_ends ms now t before after lt b =
    delay_until_ends (u32 (now + ms)) t before after (omega arith)
