-- ===== src/Tests/Flash.antt =====
-- The routines of src/flash.h on a concrete machine.
use ln_dso_stm32_dfu_bootloa.Common.{
  ℕ, ◌+◌, ◌-◌, ◌*◌, ◌<◌, ◌≡◌, refl, inl, true, false, List, [], ◌∷◌, some, half_at, arith,
}
use ln_dso_stm32_dfu_bootloa.Machine.{Machine, Settles}
use ln_dso_stm32_dfu_bootloa.Flash.Stored.{stored}
use ln_dso_stm32_dfu_bootloa.Config.{stm32f103, start_addr}
use ln_dso_stm32_dfu_bootloa.Flash.{flash_page_is_erased, flash_program_buffer, check_do_erase}
use ln_dso_stm32_dfu_bootloa.Flash.Sweep.{sweep, check_do_erase-eq-sweep}
use ln_dso_stm32_dfu_bootloa.Flash.Erased.{
  word_loaded, flash_page_is_erased_sound, flash_page_is_erased_complete,
}
use ln_dso_stm32_dfu_bootloa.Flash.Programmed.{
  flash_program_buffer_stores, flash_program_buffer_outside,
}
use ln_dso_stm32_dfu_bootloa.Common.{◌==◌, if◌then◌else◌}
use ln_dso_stm32_dfu_bootloa.Tests.{zeros, sound}

-- The flash reads as erased everywhere, and the controller is idle.
abbrev erased_flash : Machine
erased_flash = record {
  answer = λ log w a. if a == 0x4002200c then 0 else 0xffffffff;
  flash_ends = λ log. Settles.ready refl;
  log = [];
}

flash_page_is_erased_complete_example : (flash_page_is_erased 0x08002000 erased_flash).0 ≡ true
flash_page_is_erased_complete_example =
    flash_page_is_erased_complete 0x08002000 erased_flash (omega arith) all_ones
  where
    all_ones : (i : ℕ) → i < 256 → word_loaded i 0x08002000 erased_flash ≡ 0xffffffff
    all_ones i lt = ground arith

flash_page_is_erased_sound_example : word_loaded 17 0x08002000 erased_flash ≡ 0xffffffff
flash_page_is_erased_sound_example =
    flash_page_is_erased_sound 0x08002000 erased_flash (omega arith)
      flash_page_is_erased_complete_example 17 (omega arith)

check_do_erase-eq-sweep_example :
    check_do_erase stm32f103 false zeros ≡ (true, sweep (128 - 8) (start_addr stm32f103) zeros)
check_do_erase-eq-sweep_example = check_do_erase-eq-sweep stm32f103 zeros sound

abbrev five_bytes : List ℕ
five_bytes = 1 ∷ 2 ∷ 3 ∷ 4 ∷ 5 ∷ []

flash_program_buffer_stores_example :
    stored (flash_program_buffer 0x08002000 five_bytes 5 zeros).log (0x08002000 + 2 * 1)
    ≡ some (half_at five_bytes (2 * 1))
flash_program_buffer_stores_example =
    flash_program_buffer_stores 0x08002000 five_bytes 5 1 zeros (omega arith) (omega arith)

flash_program_buffer_outside_example :
    stored (flash_program_buffer 0x08002000 five_bytes 5 zeros).log 0x08001ffe
    ≡ stored zeros.log 0x08001ffe
flash_program_buffer_outside_example =
    flash_program_buffer_outside 0x08002000 five_bytes 5 0x08001ffe zeros (omega arith)
      (inl (omega arith))
