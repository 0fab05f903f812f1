-- ===== src/Loop.antt =====
-- The DFU mode of src/dfu.cpp: `setupForUsb`, the endless loop of `runDfu` and the reset. `sysTick` is
-- counted by an interrupt, so the values that the code sees in it are an argument, in their order.
pub mod Ends
pub mod Safe
pub mod Start
pub mod Draws
use ln_dso_stm32_dfu_bootloa.Common.{
  ◌>>=◌, ℕ, ◌+◌, ◌-◌, ◌*◌, ◌/◌, Bool, true, false, List, [], ◌∷◌, Option, none, some, u32, ltb,
  bit_or, replicate, if◌then◌else◌,
}
use ln_dso_stm32_dfu_bootloa.Stubs.{x_delay}
use ln_dso_stm32_dfu_bootloa.Screen.Hs.{Heatshrink}
use ln_dso_stm32_dfu_bootloa.Screen.Lcd.{animate}
use ln_dso_stm32_dfu_bootloa.Machine.{Machine, word, store}
use ln_dso_stm32_dfu_bootloa.Config.{Config}
use ln_dso_stm32_dfu_bootloa.Board.{
  output, ln_pin_mode, ln_digital_write, gpio_a, gpio_b, gpio_c, af, ln_peripheral_enable,
}
use ln_dso_stm32_dfu_bootloa.Clock.{Starts, clock_setup_in_hse_8mhz_out_72mhz}
use ln_dso_stm32_dfu_bootloa.Dfu.Types.{DfuState, manifest}
use ln_dso_stm32_dfu_bootloa.Dfu.Serial.{get_dev_unique_id}
use ln_dso_stm32_dfu_bootloa.Usb.Regs.{usb_cntr_reg}
use ln_dso_stm32_dfu_bootloa.Usb.State.{Usb, on_machine}
use ln_dso_stm32_dfu_bootloa.Usb.Descriptors.{usb_strings}
use ln_dso_stm32_dfu_bootloa.Usb.Poll.{usb_init, do_usb_poll}

abbrev pub systick_ctrl : ℕ
systick_ctrl = 0xe000e010

abbrev pub systick_load : ℕ
systick_load = 0xe000e014

abbrev pub systick_current_value : ℕ
systick_current_value = 0xe000e018

abbrev pub systick_clk_bit : ℕ
systick_clk_bit = 4

abbrev pub systick_int_bit : ℕ
systick_int_bit = 2

abbrev pub systick_enable_bit : ℕ
systick_enable_bit = 1

abbrev pub config_tick_rate_hz : ℕ
config_tick_rate_hz = 1000

abbrev pub config_systick_clock_hz : ℕ
config_systick_clock_hz = 72 * 1000 * 1000

unfoldable pub start_tick : Machine → Machine
start_tick m =
    let m = store word systick_ctrl 0 m in
    let m = store word systick_current_value 0 m in
    let m = store word systick_load (config_systick_clock_hz / config_tick_rate_hz - 1) m in
    store word systick_ctrl (bit_or (bit_or systick_clk_bit systick_int_bit) systick_enable_bit) m

abbrev pub usb_cntr_pwdn : ℕ
usb_cntr_pwdn = 2

-- PA12, the D+ line
abbrev pub pa12 : ℕ
pa12 = 12

-- `none` while the delay lasts, or where the code stands still in `deadEnd`
unfoldable pub setup_for_usb : (m : Machine) → Starts m.answer → List ℕ → Option (Machine × List ℕ)
setup_for_usb m p ticks = do
  m ← ln_peripheral_enable gpio_a (clock_setup_in_hse_8mhz_out_72mhz m p)
  m ← ln_peripheral_enable gpio_b m
  m ← ln_peripheral_enable gpio_c m
  m ← ln_peripheral_enable af m
  m ← ln_pin_mode pa12 output (store word usb_cntr_reg usb_cntr_pwdn (start_tick m))
  ticks ← x_delay 100 ticks
  some (ln_digital_write pa12 true (ln_digital_write pa12 false m), ticks)

abbrev pub scb_aircr : ℕ
scb_aircr = 0xe000ed0c

-- `_full_system_reset` up to its endless loop
unfoldable pub full_system_reset : Machine → Machine
full_system_reset m = store word scb_aircr (bit_or 0x05fa0000 4) m

abbrev pub is_manifest : DfuState → Bool
is_manifest manifest = true
is_manifest _ = false

-- How far the loop has come: it has reset the device, it stands still where an assertion failed, or it
-- goes on with the next tick to wait for and the next step of the animation.
pub data Progress : Type 0 where
  reset : Usb → Progress
  halted : Progress
  running : ℕ → ℕ → Usb → Progress

-- On with what was drawn.
abbrev pub go_on : Option (ℕ × Machine) → (ℕ → Machine → Progress) → Progress
go_on none next = halted
go_on (some (step, m)) next = next step m

-- `serial_no` is a static buffer of 25 zeros before.
unfoldable pub start_usb : Config → Usb → Usb
start_usb cfg u =
    let (serial_no, m) = get_dev_unique_id (replicate 25 0) u.machine in
    record u { strings = usb_strings cfg serial_no; machine = usb_init m }

module _ (h : Heatshrink) (steps : List (List ℕ)) where
  -- The picture that is drawn when it is due, with the step after it.
  unfoldable pub draw_if : Bool → ℕ → Machine → Option (ℕ × Machine)
  draw_if true step m = animate h steps step m
  draw_if false step m = some (step, m)

  -- The loop of `runDfu`, one round for each value of `sysTick`.
  unfoldable pub dfu_rounds : Config → List ℕ → ℕ → ℕ → Usb → Progress
  dfu_rounds cfg [] next_tick step u = running next_tick step u
  dfu_rounds cfg (t ∷ ticks) next_tick step u =
      let u = do_usb_poll cfg u in
      let due = ltb next_tick t in
      let rest = go_on (draw_if due step u.machine) (λ step m.
        dfu_rounds cfg ticks (if due then u32 (next_tick + 100) else next_tick) step
          (record u { machine = m })) in
      if is_manifest u.dfu.state then reset (on_machine full_system_reset u) else rest

  -- `step` is 0 before.
  unfoldable pub run_dfu : Config → ℕ → List ℕ → Usb → Progress
  run_dfu cfg now ticks u = dfu_rounds cfg ticks (u32 (now + 100)) 0 (start_usb cfg u)
