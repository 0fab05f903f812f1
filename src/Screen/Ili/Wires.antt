-- ===== src/Screen/Ili/Wires.antt =====
-- The pins of the display, and a command with its parameters: the macros of
-- stm32f1ili/ili9341_stm32_parallel8.h and `writeCmdParam`.
use ln_dso_stm32_dfu_bootloa.Common.{ℕ, zero, suc, ◌+◌, List, bit_and, bit_or, get_or, drop}
use ln_dso_stm32_dfu_bootloa.Machine.{Machine, half, word, store}
use ln_dso_stm32_dfu_bootloa.Board.{gpio}

-- The ports by number, A is 0.
abbrev pub gpio_bsrr : ℕ → ℕ
gpio_bsrr port = gpio port + 0x10

abbrev pub gpio_brr : ℕ → ℕ
gpio_brr port = gpio port + 0x14

abbrev pub ili_port_data : ℕ
ili_port_data = 1

abbrev pub ili_port_ctrl_a : ℕ
ili_port_ctrl_a = 0

abbrev pub ili_port_ctrl_c : ℕ
ili_port_ctrl_c = 2

-- `GPIO6` of port A, `GPIO13` to `GPIO15` of port C
abbrev pub ili_rd : ℕ
ili_rd = 0x40

abbrev pub ili_cs : ℕ
ili_cs = 0x2000

abbrev pub ili_dc : ℕ
ili_dc = 0x4000

abbrev pub ili_wr : ℕ
ili_wr = 0x8000

unfoldable pub ili_dc_cmd : Machine → Machine
ili_dc_cmd m = store half (gpio_brr ili_port_ctrl_c) ili_dc m

unfoldable pub ili_dc_dat : Machine → Machine
ili_dc_dat m = store word (gpio_bsrr ili_port_ctrl_c) ili_dc m

unfoldable pub ili_cs_active : Machine → Machine
ili_cs_active m = store half (gpio_brr ili_port_ctrl_c) ili_cs m

unfoldable pub ili_rd_active : Machine → Machine
ili_rd_active m = store half (gpio_brr ili_port_ctrl_a) ili_rd m

unfoldable pub ili_rd_idle : Machine → Machine
ili_rd_idle m = store word (gpio_bsrr ili_port_ctrl_a) ili_rd m

unfoldable pub ili_wr_strobe : Machine → Machine
ili_wr_strobe m =
    let m = store half (gpio_brr ili_port_ctrl_c) ili_wr m in
    store word (gpio_bsrr ili_port_ctrl_c) ili_wr m

unfoldable pub ili_write_8bit : ℕ → Machine → Machine
ili_write_8bit d m =
    ili_wr_strobe (store word (gpio_bsrr ili_port_data) (bit_or 0x00ff0000 (bit_and d 0xff)) m)

unfoldable pub ili_write_command_8bit : ℕ → Machine → Machine
ili_write_command_8bit cmd m = ili_write_8bit cmd (ili_dc_cmd m)

-- The loop of `writeCmdParam`, from the byte that `bytes` points to.
unfoldable pub write_bytes : ℕ → List ℕ → Machine → Machine
write_bytes zero bytes m = m
write_bytes (suc n) bytes m = write_bytes n (drop 1 bytes) (ili_write_8bit (get_or bytes 0 0) m)

unfoldable pub write_cmd_param : ℕ → ℕ → List ℕ → Machine → Machine
write_cmd_param cmd size bytes m =
    write_bytes size bytes (ili_dc_dat (ili_write_command_8bit cmd m))
