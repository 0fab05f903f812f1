-- ===== src/Reboot.antt =====
-- The reboot marker of src/reboot.cpp: 64 bits at the start of the RAM, as two words.
pub mod Marker
use ln_dso_stm32_dfu_bootloa.Common.{ℕ, ◌+◌, ◌*◌, Bool, ◌==◌}
use ln_dso_stm32_dfu_bootloa.Machine.{Machine, word, load, store}

abbrev pub marker : ℕ
marker = 0x20000000

abbrev pub reboot_magic : ℕ
reboot_magic = 0xDEADBEEFCC00FFEE

unfoldable pub reboot_into_bootloader : Machine → Machine
reboot_into_bootloader m = store word (marker + 4) 0xDEADBEEF (store word marker 0xCC00FFEE m)

unfoldable pub clear_reboot_flags : Machine → Machine
clear_reboot_flags m = store word (marker + 4) 0 (store word marker 0 m)

unfoldable pub rebooted_into_dfu : Machine → Bool × Machine
rebooted_into_dfu m =
    let (low, m) = load word marker m in
    let (high, m) = load word (marker + 4) m in (low + 4294967296 * high == reboot_magic, m)
