-- ===== src/Config.antt =====
-- The build configuration: flash_config.h.in and the macros that CMakeLists.txt and
-- mcuSelect.cmake define, with the addresses that src/dfu.cpp, src/flash.h, src/main.cpp and
-- src/registers.h derive from it.
use ln_dso_stm32_dfu_bootloa.Common.{
  ℕ, ◌+◌, ◌*◌, ◌≤◌, ◌<◌, Bool, true, false, List, Option, none, u32, codes,
}

pub record Config : Type 0 where
  pub flash_base_addr : ℕ
  pub flash_size_kb : ℕ
  pub bootldr_size_kb : ℕ
  pub enable_safewrite : Bool
  pub enable_dfu_upload : Bool
  pub enable_protections : Bool
  pub enable_checksum : Bool
  -- the texts of macros that the preprocessor pastes into strings
  pub enable_watchdog : Option (List ℕ)
  pub version : List ℕ
  pub bootldr_size_text : List ℕ
  pub payload_size_text : List ℕ

-- APP_ADDRESS
abbrev pub app_address : Config → ℕ
app_address cfg = u32 (cfg.flash_base_addr + cfg.bootldr_size_kb * 1024)

-- the locals `start_addr` and `end_addr` of the code that guards the flash
abbrev pub start_addr : Config → ℕ
start_addr cfg = u32 (0x08000000 + cfg.bootldr_size_kb * 1024)

abbrev pub end_addr : Config → ℕ
end_addr cfg = u32 (0x08000000 + cfg.flash_size_kb * 1024)

-- The boot loader and the application share the flash, which ends far below the peripherals.
pub record IsSound (cfg : Config) : Type 0 where
  pub room : cfg.bootldr_size_kb < cfg.flash_size_kb
  pub small : cfg.flash_size_kb ≤ 0x10000

-- The STM32F103 build: 128 KB of flash, 8 KB of them for the boot loader.
abbrev pub stm32f103 : Config
stm32f103 = record {
  flash_base_addr = 0x08000000;
  flash_size_kb = 128;
  bootldr_size_kb = 8;
  enable_safewrite = false;
  enable_dfu_upload = false;
  enable_protections = false;
  enable_checksum = true;
  enable_watchdog = none;
  version = codes "0.0";
  bootldr_size_text = codes "8";
  payload_size_text = codes "120";
}

-- The same with both optional features of the DFU code.
abbrev pub stm32f103_full : Config
stm32f103_full = record stm32f103 { enable_safewrite = true; enable_dfu_upload = true }
