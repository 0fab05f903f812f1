-- ===== src/Screen.antt =====
-- The screen: src/lcd.cpp, src/ili_hs.h and the driver stm32f1ili/ili9341_stm32_parallel8.cpp.
pub mod Ili
pub mod Hs
pub mod Lcd
pub mod Bus
pub mod Says
pub mod Stream
pub mod Sequence
pub mod Draw
pub mod Picture
pub mod Shows
pub mod Safe
pub mod SafeDraw
pub mod SafeInit
