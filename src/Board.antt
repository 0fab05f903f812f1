-- ===== src/Board.antt =====
-- Pins, clocks and pin remapping: lnArduino_mini/lnGPIO.cpp, lnArduino_mini/lnRCU.cpp and
-- `lnExtiSWDOnly` of src/dfu.cpp. `none` is a call of `deadEnd`, which never returns.
pub mod Irq
pub mod Pins
use ln_dso_stm32_dfu_bootloa.Common.{
  ℕ, ◌+◌, ◌*◌, ◌/◌, ◌%◌, ◌^◌, Bool, not, Option, none, some, u32, not32, bit_and, bit_or, ltb, ◌==◌,
  if◌then◌else◌,
}
use ln_dso_stm32_dfu_bootloa.Machine.{Machine, word, load, store, set_bits}

-- `LN_GPIOA_ADR` to `LN_GPIOE_ADR`, as the table `gpio` has them
abbrev pub gpio : ℕ → ℕ
gpio port = 0x40010800 + 0x400 * port

-- offsets in `struct LN_GPIOx`
abbrev pub gpio_ctl0 : ℕ
gpio_ctl0 = 0

abbrev pub gpio_ctl1 : ℕ
gpio_ctl1 = 4

abbrev pub gpio_istat : ℕ
gpio_istat = 8

abbrev pub gpio_octl : ℕ
gpio_octl = 12

abbrev pub gpio_bop : ℕ
gpio_bop = 16

-- `enum GpioMode`; `lnINPUT_FLOATING` is `lnFLOATING`.
pub data GpioMode : Type 0 where
  floating output input_pullup input_pulldown output_open_drain : GpioMode
  alternate_pp alternate_od pwm adc_mode dac_mode : GpioMode

-- `LNGPIOSET(mod, ctl)`
abbrev pub gpio_set : ℕ → ℕ → ℕ
gpio_set mod_bits ctl = ctl * 4 + mod_bits

-- The four bits of a pin in its control register.
abbrev pub mode_bits : GpioMode → Option ℕ
mode_bits input_pullup = some (gpio_set 0 2)
mode_bits input_pulldown = some (gpio_set 0 2)
mode_bits output = some (gpio_set 3 0)
mode_bits output_open_drain = some (gpio_set 3 1)
mode_bits alternate_pp = some (gpio_set 3 2)
mode_bits alternate_od = some (gpio_set 3 3)
mode_bits _ = none

-- The store to BOP that selects the pull-up or the pull-down.
abbrev pub pull : GpioMode → ℕ → ℕ → Machine → Machine
pull input_pullup port pin m = store word (port + gpio_bop) (u32 (2 ^ pin)) m
pull input_pulldown port pin m = store word (port + gpio_bop) (u32 (2 ^ (16 + pin))) m
pull _ port pin m = m

unfoldable pub ln_pin_mode : ℕ → GpioMode → Machine → Option Machine
ln_pin_mode xpin mode m = elim (mode_bits mode) [
  | none ↦ none
  | some value ↦
      let port = gpio (xpin / 16) in
      let pin = xpin % 16 in
      let high = ltb 7 pin in
      let ctl = if high then port + gpio_ctl1 else port + gpio_ctl0 in
      let shift = 4 * (if high then pin % 8 else pin) in
      let (ref, m) = load word ctl (pull mode port pin m) in
      some (
        store word ctl
          (bit_or (bit_and ref (not32 (u32 (15 * 2 ^ shift)))) (u32 (value * 2 ^ shift))) m)
]

unfoldable pub ln_digital_write : ℕ → Bool → Machine → Machine
ln_digital_write pin value m =
    let radix = if value then 1 else 2 ^ 16 in
    store word (gpio (pin / 16) + gpio_bop) (u32 (radix * 2 ^ (pin % 16))) m

unfoldable pub ln_digital_read : ℕ → Machine → Bool × Machine
ln_digital_read pin m =
    let (v, m) = load word (gpio (pin / 16) + gpio_istat) m in
    (not (bit_and v (2 ^ (pin % 16)) == 0), m)

-- `enum Peripherals`, those that `lnPeripherals::enable` knows, and the others
pub data Peripheral : Type 0 where
  gpio_a gpio_b gpio_c af other : Peripheral

abbrev pub rcu_apb2en : ℕ
rcu_apb2en = 0x40021018

abbrev pub enable_bit : Peripheral → Option ℕ
enable_bit af = some 1
enable_bit gpio_a = some 4
enable_bit gpio_b = some 8
enable_bit gpio_c = some 16
enable_bit other = none

unfoldable pub ln_peripheral_enable : Peripheral → Machine → Option Machine
ln_peripheral_enable periph m = elim (enable_bit periph) [
  | none ↦ none
  | some bit ↦ some (set_bits rcu_apb2en bit m)
]

abbrev pub afio_pcf0 : ℕ
afio_pcf0 = 0x40010004

-- SWD without JTAG, then the partial remap of timer 1
unfoldable pub ln_exti_swd_only : Machine → Machine
ln_exti_swd_only m =
    let (v, m) = load word afio_pcf0 m in
    let m = store word afio_pcf0 (bit_or (bit_and v (not32 0x7000000)) 0x2000000) m in
    let (v, m) = load word afio_pcf0 m in
    store word afio_pcf0 (bit_or (bit_and v (not32 0x300)) 0x100) m

-- The getters of lnGPIO.cpp, for the ports A to C of its table `gpios`.
unfoldable pub ln_get_gpio_toggle_register : ℕ → ℕ
ln_get_gpio_toggle_register port = gpio port + gpio_bop

unfoldable pub ln_get_gpio_direction_register : ℕ → ℕ
ln_get_gpio_direction_register port = gpio port + gpio_ctl0

unfoldable pub ln_get_gpio_value_register : ℕ → ℕ
ln_get_gpio_value_register port = gpio port + gpio_octl

unfoldable pub ln_read_port : ℕ → Machine → ℕ × Machine
ln_read_port port m = load word (gpio port + gpio_istat) m

-- `class lnFastIO`
pub record FastIo : Type 0 where
  pub onoff : ℕ
  pub onbit : ℕ
  pub offbit : ℕ

-- The members that the constructor sets after `lnPinMode`.
unfoldable pub fast_io_members : ℕ → FastIo
fast_io_members pin = record {
  onoff = gpio (pin / 16) + gpio_bop;
  onbit = 2 ^ (pin % 16);
  offbit = u32 (2 ^ (pin % 16) * 2 ^ 16);
}

unfoldable pub fast_io : ℕ → Machine → Option (FastIo × Machine)
fast_io pin m = elim (ln_pin_mode pin output m) [
  | none ↦ none
  | some m ↦ some (fast_io_members pin, m)
]

unfoldable pub on : FastIo → Machine → Machine
on io m = store word io.onoff io.onbit m

unfoldable pub off : FastIo → Machine → Machine
off io m = store word io.onoff io.offbit m

unfoldable pub pulse_low : FastIo → Machine → Machine
pulse_low io m = on io (off io m)

unfoldable pub pulse_high : FastIo → Machine → Machine
pulse_high io m = off io (on io m)
