-- ===== src/Reboot/Marker.antt =====
-- The marker of src/reboot.cpp through a reset: what is set is seen, what is cleared is not.
use ln_dso_stm32_dfu_bootloa.Common.{ℕ, ◌+◌, ◌≡◌, refl, true, false, some, u32}
use ln_dso_stm32_dfu_bootloa.Machine.{Machine, Log, word, value, load, store}
use ln_dso_stm32_dfu_bootloa.Machine.Trace.{stored_word}
use ln_dso_stm32_dfu_bootloa.Reboot.{
  marker, reboot_into_bootloader, clear_reboot_flags, rebooted_into_dfu,
}

-- The RAM keeps the marker: a load returns the word stored last, also after a reset.
abbrev pub Keeps : Machine → ℕ → Type 0
Keeps m a = (log : Log) (v : ℕ) → stored_word log a ≡ some v → value m.answer log word a ≡ u32 v

module _ (m : Machine) (low : Keeps m marker) (high : Keeps m (marker + 4)) where
  -- If the RAM keeps the marker, it is seen after `reboot_into_bootloader` and it is not seen
  -- after `clear_reboot_flags`, whatever the RAM held before.
  pub rebooted_into_dfu-marker :
      ((rebooted_into_dfu (reboot_into_bootloader m)).0 ≡ true)
      × ((rebooted_into_dfu (clear_reboot_flags m)).0 ≡ false)
      × ((rebooted_into_dfu (clear_reboot_flags (reboot_into_bootloader m))).0 ≡ false)
  unfolding rebooted_into_dfu reboot_into_bootloader clear_reboot_flags load store
  rebooted_into_dfu-marker = (
    rw (low _ 0xCC00FFEE refl, high _ 0xDEADBEEF refl) refl,
    rw (low _ 0 refl, high _ 0 refl) refl,
    rw (low _ 0 refl, high _ 0 refl) refl,
  )
