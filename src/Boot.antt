-- ===== src/Boot.antt =====
-- `main` of src/main.cpp: from reset to the application, or to the DFU mode.
pub mod Decision
use ln_dso_stm32_dfu_bootloa.Common.{
  ℕ, ◌+◌, ◌*◌, ◌/◌, ◌%◌, ◌^◌, Bool, true, false, not, ◌&&◌, ◌||◌, Option, none, some, u32, bit_or,
  ltb, ◌==◌, if◌then◌else◌,
}
use ln_dso_stm32_dfu_bootloa.Machine.{Machine, word, load, store, set_bits}
use ln_dso_stm32_dfu_bootloa.Config.{Config, start_addr, app_address}
use ln_dso_stm32_dfu_bootloa.Board.{
  ln_peripheral_enable, gpio_b, af, ln_exti_swd_only, ln_pin_mode, input_pullup, ln_digital_read,
}
use ln_dso_stm32_dfu_bootloa.Reboot.{rebooted_into_dfu, clear_reboot_flags}

-- PB7, the "OK" key
abbrev pub force_dfu_io : ℕ
force_dfu_io = 23

abbrev pub rcc_csr : ℕ
rcc_csr = 0x40021024

abbrev pub rcc_csr_rmvf : ℕ
rcc_csr_rmvf = 0x1000000

abbrev pub csb_vtor : ℕ
csb_vtor = 0xe000ed08

-- How `main` goes on: it jumps to the application with a stack pointer, it goes on to the DFU mode
-- for the reasons in `go_dfu`, or it stands still in `deadEnd`.
pub data Outcome : Type 0 where
  app : ℕ → ℕ → Machine → Outcome
  dfu : ℕ → Machine → Outcome
  dead_end : Outcome

-- `XXH32(address, length, seed)` of the vendored src/xxhash.h, which reads the memory
abbrev pub Hash : Type 0
Hash = Machine → ℕ → ℕ → ℕ → ℕ

-- the hash test, which is made only if nothing asks for the DFU mode so far
unfoldable pub check_image : Config → Hash → ℕ → ℕ → ℕ → Machine → ℕ
check_image cfg xxh32 go_dfu image_size checksum m =
    if not (go_dfu == 0)
    then go_dfu
    else if ltb image_size (256 * 1024)
    then if not (image_size == 0x1234) || not (checksum == 0x5678)
      then if u32 (xxh32 m (u32 (start_addr cfg + 16)) image_size 0x100) == checksum
        then go_dfu
        else bit_or go_dfu 4
      else go_dfu
    else 1

-- the end of `main`
unfoldable pub start_app : Config → ℕ → Machine → Outcome
start_app cfg go_dfu m =
    if go_dfu == 0
    then (let m = store word csb_vtor (app_address cfg % 65536) m in
        let (sp, m) = load word (app_address cfg) m in
        let (pc, m) = load word (u32 (app_address cfg + 4)) m in app sp pc m)
    else dfu go_dfu m

-- `main` from the reading of the key on
unfoldable pub decide_boot : Config → Hash → ℕ → ℕ → ℕ → Bool → Machine → Outcome
decide_boot cfg xxh32 sig image_size checksum rebooted m =
    let go_dfu : ℕ = if rebooted then 1 else 0 in
    let (released, m) = ln_digital_read force_dfu_io m in
    let go_dfu = if released then go_dfu else bit_or go_dfu 1 in
    let go_dfu = if (go_dfu == 0) && not (sig / 2 ^ 20 == 0x200) then bit_or go_dfu 2 else go_dfu in
    let m = set_bits rcc_csr rcc_csr_rmvf m in
    let go_dfu = check_image cfg xxh32 go_dfu image_size checksum m in
    start_app cfg go_dfu (clear_reboot_flags m)

infixl 5 ◌>>=◌
abbrev pub ◌>>=◌ : Option Machine → (Machine → Outcome) → Outcome
none >>= f = dead_end
some m >>= f = f m

unfoldable pub main : Config → Hash → Machine → Outcome
main cfg xxh32 m =
    let (sig, m) = load word (start_addr cfg) m in
    let (image_size, m) = load word (u32 (start_addr cfg + 8)) m in
    let (checksum, m) = load word (u32 (start_addr cfg + 12)) m in
    let (rebooted, m) = rebooted_into_dfu m in
    do
      m ← ln_peripheral_enable gpio_b m
      m ← ln_peripheral_enable af m
      m ← ln_pin_mode force_dfu_io input_pullup (ln_exti_swd_only m)
      decide_boot cfg xxh32 sig image_size checksum rebooted m
