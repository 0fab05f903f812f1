-- ===== src/Screen/Ili.antt =====
-- The display driver, stm32f1ili/ili9341_stm32_parallel8.cpp and its header: an ILI9341 or ST7789 on
-- an 8-bit bus of pins. Port B carries the byte, PC14 tells data from commands, the display takes the
-- byte when PC15 rises.
mod Wires
unfoldable pub use Wires.{
  gpio_bsrr, gpio_brr, ili_port_data, ili_port_ctrl_a, ili_port_ctrl_c, ili_rd, ili_cs, ili_dc,
  ili_wr, ili_dc_cmd, ili_dc_dat, ili_cs_active, ili_rd_active, ili_rd_idle, ili_wr_strobe,
  ili_write_8bit, ili_write_command_8bit, write_bytes, write_cmd_param,
}
use ln_dso_stm32_dfu_bootloa.Common.{
  ◌>>=◌, ℕ, zero, suc, ◌+◌, ◌*◌, ◌/◌, ◌%◌, Bool, true, false, List, [], ◌∷◌, Option, none, some, u8,
  u16, u32, bit_and, bit_or, get_or, drop, ◌==◌, if◌then◌else◌,
}
use ln_dso_stm32_dfu_bootloa.Machine.{Machine, half, word, store}
use ln_dso_stm32_dfu_bootloa.Board.{
  gpio, output, input_pullup, GpioMode, ln_pin_mode, ln_digital_write, ln_read_port,
}
use ln_dso_stm32_dfu_bootloa.Stubs.{x_delay}

abbrev pub fake_delay_command : ℕ
fake_delay_command = 0x55

abbrev pub dso_reset_off : List ℕ
dso_reset_off = 0x01 ∷ 0 ∷ fake_delay_command ∷ 150 ∷ 0x28 ∷ 0 ∷ 0x3a ∷ 1 ∷ 0x55 ∷ 0 ∷ []

abbrev pub ili9341_invertoff : ℕ
ili9341_invertoff = 0x20

abbrev pub dso_wake_on : List ℕ
dso_wake_on =
    0x11 ∷ 0 ∷ fake_delay_command ∷ 150 ∷ 0x29 ∷ 0 ∷ ili9341_invertoff ∷ 0 ∷ 0x36 ∷ 1 ∷ 0x48 ∷ 0xb0
    ∷ 1 ∷ 0x40 ∷ 0 ∷ []

-- `sendSequence`; the ticks are those that `delay` sees. `none` while a delay lasts.
unfoldable pub send_sequence : ℕ → List ℕ → Machine → List ℕ → Option (Machine × List ℕ)
send_sequence zero bytes m ticks = none
send_sequence (suc fuel) bytes m ticks =
    let cmd = get_or bytes 0 0 in
    let len = get_or bytes 1 0 in
    let after_delay = x_delay len ticks >>= λ ticks. send_sequence fuel (drop 2 bytes) m ticks in
    let after_command =
      send_sequence fuel (drop (2 + len) bytes) (write_cmd_param cmd len (drop 2 bytes) m) ticks in
    if cmd == 0
    then some (m, ticks)
    else if cmd == fake_delay_command
    then after_delay
    else after_command

abbrev pub ili_caset : ℕ
ili_caset = 0x2a

abbrev pub ili_paset : ℕ
ili_paset = 0x2b

abbrev pub ili_ramwr : ℕ
ili_ramwr = 0x2c

abbrev pub ili_madctl : ℕ
ili_madctl = 0x36

-- The arguments are uint16_t.
unfoldable pub ili_set_address_window : ℕ → ℕ → ℕ → ℕ → Machine → Machine
ili_set_address_window x1 y1 x2 y2 m =
    let m = write_cmd_param ili_caset 4 (u8 (x1 / 256) ∷ u8 x1 ∷ u8 (x2 / 256) ∷ u8 x2 ∷ []) m in
    let m = write_cmd_param ili_paset 4 (u8 (y1 / 256) ∷ u8 y1 ∷ u8 (y2 / 256) ∷ u8 y2 ∷ []) m in
    ili_write_command_8bit ili_ramwr m

unfoldable pub ili_data_begin : Machine → Machine
ili_data_begin m = ili_dc_dat m

unfoldable pub ili_data_end : Machine → Machine
ili_data_end m = ili_dc_cmd m

unfoldable pub ili_send_words : ℕ → List ℕ → Machine → Machine
ili_send_words zero words m = m
ili_send_words (suc n) words m =
    let w = get_or words 0 0 in
    ili_send_words n (drop 1 words) (ili_write_8bit (u8 w) (ili_write_8bit (u8 (w / 256)) m))

-- The loop of `ili_fill_color`, for `len` pixels.
unfoldable pub fill_pixels : ℕ → ℕ → Machine → Machine
fill_pixels color zero m = m
fill_pixels color (suc len) m =
    fill_pixels color len (ili_write_8bit (u8 color) (ili_write_8bit (u8 (color / 256)) m))

unfoldable pub ili_fill_color : ℕ → ℕ → Machine → Machine
ili_fill_color color len m = fill_pixels color len (ili_dc_dat m)

-- The globals of the driver.
pub record Ili : Type 0 where
  pub tftwidth : ℕ
  pub tftheight : ℕ
  pub is7789 : Bool

unfoldable pub ili_fill_screen : ℕ → Ili → Machine → Machine
ili_fill_screen color g m =
    ili_fill_color color (u32 (g.tftwidth * g.tftheight))
      (ili_set_address_window 0 0 (u16 (g.tftwidth + 65535)) (u16 (g.tftheight + 65535)) m)

abbrev pub mad_9341 : List ℕ
mad_9341 = 0x80 ∷ 0xe0 ∷ 0x40 ∷ 0x20 ∷ []

abbrev pub mad_7789 : List ℕ
mad_7789 = 0xc0 ∷ 0xa0 ∷ 0 ∷ 0x60 ∷ []

unfoldable pub ili_rotate_display : ℕ → Ili → Machine → Ili × Machine
ili_rotate_display rotation g m =
    let t = get_or (if g.is7789 then mad_7789 else mad_9341) rotation 0 in
    (
      if rotation % 2 == 0
          then record g { tftheight = 320; tftwidth = 240 }
          else record g { tftheight = 240; tftwidth = 320 },
      write_cmd_param ili_madctl 1 (t ∷ []) m,
    )

unfoldable pub read_8 : Machine → ℕ × Machine
read_8 m = let (u, m) = ln_read_port 1 (ili_rd_active m) in (bit_and u 0xff, ili_rd_idle m)

-- `n` bytes are left.
unfoldable pub read_bytes : ℕ → ℕ → Machine → ℕ × Machine
read_bytes zero u m = (u, m)
read_bytes (suc n) u m = let (x, m) = read_8 m in read_bytes n (u32 (u * 256 + x)) m

-- The mode of `n` pins from `pin` on.
unfoldable pub pin_modes : ℕ → ℕ → GpioMode → Machine → Option Machine
pin_modes zero pin mode m = some m
pin_modes (suc n) pin mode m = ln_pin_mode pin mode m >>= λ m. pin_modes n (pin + 1) mode m

abbrev pub pb0 : ℕ
pb0 = 16

unfoldable pub ili_read_register_32 : ℕ → Machine → Option (ℕ × Machine)
ili_read_register_32 r m = do
  m ← pin_modes 8 pb0 input_pullup (ili_dc_dat (ili_write_command_8bit (u8 r) m))
  let (u, m) = read_bytes 4 0 m
  m ← pin_modes 8 pb0 output m
  some (u, m)

unfoldable pub set_pin_to_default : ℕ → Machine → Option Machine
set_pin_to_default pin m = ln_pin_mode pin output (ln_digital_write pin true m)

-- `n` pins from `pin` on.
unfoldable pub set_pins : ℕ → ℕ → Machine → Option Machine
set_pins zero pin m = some m
set_pins (suc n) pin m = set_pin_to_default pin m >>= λ m. set_pins n (pin + 1) m

-- PA6
abbrev pub dso_reset_pin : ℕ
dso_reset_pin = 6

abbrev pub pc13 : ℕ
pc13 = 45

unfoldable pub ili_init : Ili → Machine → List ℕ → Option (Ili × Machine × List ℕ)
ili_init g m ticks = do
  m ← set_pins 10 pb0 m
  m ← set_pin_to_default dso_reset_pin m
  m ← set_pins 3 pc13 m
  ticks ← x_delay 20 ticks
  let m = ln_digital_write dso_reset_pin false m
  ticks ← x_delay 50 ticks
  let m = ln_digital_write dso_reset_pin true m
  (m, ticks) ← send_sequence 5 dso_reset_off (ili_cs_active m) ticks
  (m, ticks) ← send_sequence 7 dso_wake_on m ticks
  (id, m) ← ili_read_register_32 0xd3 m
  (reg04, m) ← ili_read_register_32 0x04 m
  some (if bit_and reg04 0xffff == 0x8552 then record g { is7789 = true } else g, m, ticks)
