-- ===== src/Flash.antt =====
-- The flash routines of src/flash.h.
pub mod Safe
pub mod Sweep
pub mod Erased
pub mod Stored
pub mod Programmed
use ln_dso_stm32_dfu_bootloa.Common.{
  ℕ, zero, suc, ◌+◌, ◌*◌, ◌/◌, Bool, true, false, List, u32, not32, half_at, ◌==◌, ltb,
  if◌then◌else◌,
}
use ln_dso_stm32_dfu_bootloa.Machine.{Machine, half, word, load, store, set_bits, keep_bits, poll}
use ln_dso_stm32_dfu_bootloa.Config.{Config, start_addr, end_addr}

abbrev pub flash_cr_lock : ℕ
flash_cr_lock = 0x80

abbrev pub flash_cr_strt : ℕ
flash_cr_strt = 0x40

abbrev pub flash_cr_opter : ℕ
flash_cr_opter = 0x20

abbrev pub flash_cr_optpg : ℕ
flash_cr_optpg = 0x10

abbrev pub flash_cr_per : ℕ
flash_cr_per = 2

abbrev pub flash_cr_pg : ℕ
flash_cr_pg = 1

abbrev pub flash_keyr : ℕ
flash_keyr = 0x40022004

abbrev pub flash_optkeyr : ℕ
flash_optkeyr = 0x40022008

abbrev pub flash_cr : ℕ
flash_cr = 0x40022010

abbrev pub flash_ar : ℕ
flash_ar = 0x40022014

unfoldable pub flash_unlock : Bool → Machine → Machine
flash_unlock opt m =
    let m = set_bits flash_cr flash_cr_lock m in
    let m = store word flash_keyr 0x45670123 m in
    let m = store word flash_keyr 0xcdef89ab m in
    if opt then store word flash_optkeyr 0xcdef89ab (store word flash_optkeyr 0x45670123 m) else m

unfoldable pub flash_lock : Machine → Machine
flash_lock m = set_bits flash_cr flash_cr_lock m

-- `_flash_wait_for_last_operation`
unfoldable pub flash_wait : Machine → Machine
unfolding poll
flash_wait m = record m { log = poll (m.flash_ends m.log) }

unfoldable pub flash_erase_page : ℕ → Machine → Machine
flash_erase_page page_address m =
    let m = flash_wait m in
    let m = set_bits flash_cr flash_cr_per m in
    let m = store word flash_ar page_address m in
    let m = set_bits flash_cr flash_cr_strt m in
    let m = flash_wait m in keep_bits flash_cr (not32 flash_cr_per) m

-- The loop over the words of a page: `n` of them are left, the next one is at `addr`.
unfoldable pub words_erased : ℕ → ℕ → Machine → Bool × Machine
words_erased zero addr m = (true, m)
words_erased (suc n) addr m =
    let (v, m') = load word addr m in
    let rest = words_erased n (u32 (addr + 4)) m' in if v == 0xffffffff then rest else (false, m')

abbrev pub words_per_page : ℕ
words_per_page = 256

unfoldable pub flash_page_is_erased : ℕ → Machine → Bool × Machine
flash_page_is_erased addr m = words_erased words_per_page addr m

-- The loop over the half-words: `n` of them are left, the next one is `data[i]`.
unfoldable pub program_halves : ℕ → ℕ → ℕ → List ℕ → Machine → Machine
program_halves zero i address buf m = m
program_halves (suc n) i address buf m =
    program_halves n (i + 1) address buf
      (flash_wait (store half (u32 (address + 2 * i)) (half_at buf (2 * i)) m))

-- `data` is a byte buffer that is read as half-words.
unfoldable pub flash_program_buffer : ℕ → List ℕ → ℕ → Machine → Machine
flash_program_buffer address buf len m =
    let m = flash_wait m in
    let m = set_bits flash_cr flash_cr_pg m in
    let m = program_halves (len / 2) 0 address buf m in keep_bits flash_cr (not32 flash_cr_pg) m

-- `ENABLE_PROTECTIONS`
unfoldable pub flash_erase_option_bytes : Machine → Machine
flash_erase_option_bytes m =
    let m = flash_wait m in
    let m = set_bits flash_cr flash_cr_opter m in
    let m = set_bits flash_cr flash_cr_strt m in
    let m = flash_wait m in keep_bits flash_cr (not32 flash_cr_opter) m

unfoldable pub flash_program_option_bytes : ℕ → ℕ → Machine → Machine
flash_program_option_bytes address halfword m =
    let m = flash_wait m in
    let m = set_bits flash_cr flash_cr_optpg m in
    let m = store half address halfword m in
    let m = flash_wait m in keep_bits flash_cr (not32 flash_cr_optpg) m

-- The body that `check_do_erase` and the DFU commands share: erase a page that is not erased.
unfoldable pub ensure_erased : ℕ → Machine → Machine
ensure_erased addr m =
    let (erased, m) = flash_page_is_erased addr m in if erased then m else flash_erase_page addr m

-- The loop of `check_do_erase` on fuel, a bound on its rounds.
unfoldable pub erase_pages : ℕ → ℕ → ℕ → Machine → Machine
erase_pages zero addr end m = m
erase_pages (suc fuel) addr end m =
    let rest = erase_pages fuel (u32 (addr + 1024)) end (ensure_erased addr m) in
    if ltb addr end then rest else m

-- `erased` is the function's static variable, `true` once the flash has been wiped.
unfoldable pub check_do_erase : Config → Bool → Machine → Bool × Machine
check_do_erase cfg true m = (true, m)
check_do_erase cfg false m =
    (true, erase_pages (cfg.flash_size_kb + 1) (start_addr cfg) (end_addr cfg) m)
