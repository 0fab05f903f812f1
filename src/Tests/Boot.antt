-- ===== src/Tests/Boot.antt =====
-- `main` of src/main.cpp and the marker of src/reboot.cpp on concrete machines.
use ln_dso_stm32_dfu_bootloa.Common.{
  ℕ, ◌+◌, ◌≡◌, refl, true, false, [], Option, none, some, ◌==◌, if◌then◌else◌, u32, ap,
}
use ln_dso_stm32_dfu_bootloa.Machine.{Machine, Settles}
use ln_dso_stm32_dfu_bootloa.Machine.Trace.{stored_word}
use ln_dso_stm32_dfu_bootloa.Config.{stm32f103}
use ln_dso_stm32_dfu_bootloa.Reboot.{
  marker, reboot_into_bootloader, clear_reboot_flags, rebooted_into_dfu,
}
use ln_dso_stm32_dfu_bootloa.Reboot.Marker.{Keeps, rebooted_into_dfu-marker}
use ln_dso_stm32_dfu_bootloa.Boot.{Hash, main}
use ln_dso_stm32_dfu_bootloa.Boot.Decision.{Inputs, Reads, EndsWell, main-EndsWell}

-- An image with the placeholders for its size and hash, the key released, no marker.
abbrev memory : ℕ → ℕ
memory a =
    if a == 0x08002000
    then 0x20005000
    else if a == 0x08002004
    then 0x08002101
    else if a == 0x08002008
    then 0x1234
    else if a == 0x0800200c
    then 0x5678
    else if a == 0x40010c08
    then 0x80
    else 0

abbrev with_image : Machine
with_image = record {
  answer = λ log w a. memory a;
  flash_ends = λ log. Settles.ready refl;
  log = [];
}

abbrev no_hash : Hash
no_hash m a n seed = 0

abbrev image_inputs : Inputs
image_inputs = record {
  sig = 0x20005000;
  image_size = 0x1234;
  checksum = 0x5678;
  marker_low = 0;
  marker_high = 0;
  pins = 0x80;
  hash = 0;
  stack = 0x20005000;
  entry = 0x08002101;
}

with_image-Reads : Reads stm32f103 no_hash with_image image_inputs
with_image-Reads = record {
  sig = λ log. refl;
  image_size = λ log. refl;
  checksum = λ log. refl;
  marker_low = λ log. refl;
  marker_high = λ log. refl;
  pins = λ log. refl;
  hash = λ log. refl;
  stack = λ log. refl;
  entry = λ log. refl;
}

main-EndsWell_example : EndsWell stm32f103 image_inputs (main stm32f103 no_hash with_image)
main-EndsWell_example = main-EndsWell stm32f103 no_hash with_image image_inputs with_image-Reads

-- A RAM that returns what was stored, except where the flash controller's status is read.
abbrev or_zero : Option ℕ → ℕ
or_zero none = 0
or_zero (some v) = v

abbrev ram : Machine
ram = record {
  answer = λ log w a. if a == 0x4002200c then 0 else or_zero (stored_word log a);
  flash_ends = λ log. Settles.ready refl;
  log = [];
}

ram-Keeps_low : Keeps ram marker
ram-Keeps_low log v e = ap (λ o. u32 (or_zero o)) e

ram-Keeps_high : Keeps ram (marker + 4)
ram-Keeps_high log v e = ap (λ o. u32 (or_zero o)) e

rebooted_into_dfu-marker_example :
    ((rebooted_into_dfu (reboot_into_bootloader ram)).0 ≡ true)
    × ((rebooted_into_dfu (clear_reboot_flags ram)).0 ≡ false)
    × ((rebooted_into_dfu (clear_reboot_flags (reboot_into_bootloader ram))).0 ≡ false)
rebooted_into_dfu-marker_example = rebooted_into_dfu-marker ram ram-Keeps_low ram-Keeps_high
