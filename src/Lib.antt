-- ===== src/Lib.antt =====
-- The USB DFU boot loader of an STM32F103 oscilloscope.
--
-- After a reset `main` (src/main.cpp) looks at the reboot marker (src/reboot.cpp), a key
-- (lnArduino_mini/lnGPIO.cpp) and the application's image, and starts the application or the DFU
-- mode. In the DFU mode a loop calls `do_usb_poll` (src/usb.cpp), which reads the events of the USB
-- peripheral, runs the control endpoint, answers the standard requests and passes the class requests
-- to `usbdfu_control_request` (src/dfu.cpp). A download is kept in `prog` and executed by
-- `usbdfu_getstatus_complete` when the answer to GETSTATUS has been sent, with the routines of
-- src/flash.h. Before the loop `runLcd` (src/lcd.cpp) lights the display and draws a picture, and
-- `animate` draws one of six in the loop ten times a second.
--
-- The files:
--   Common     names of the libraries, byte buffers, Boolean tests, machine words, missing results
--   Machine    loads and stores of volatile addresses; Machine/Trace has views of their log
--   Config     the macros of flash_config.h.in and CMakeLists.txt, and the addresses they give
--   Stubs      memcpy and xDelay of src/stubs.cpp, strlen of src/usb.cpp
--   Flash      src/flash.h; Flash/Stored the half-words that it keeps: a store to FLASH_AR counts as
--              the erase of a page, and a half-word stored as programmed, whatever was there before
--   Dfu        src/dfu.cpp: the globals and the completion, Dfu/Requests the requests; Dfu/Types has
--              the enums of src/usb.h, Dfu/Session the calls that the USB code makes, as events,
--              Dfu/Protocol the abstract state machine
--   Board      lnArduino_mini/lnGPIO.cpp, lnArduino_mini/lnRCU.cpp, lnExtiSWDOnly of src/dfu.cpp and
--              lnArduino_mini/lnIRQ_arm_gd32fx.cpp
--   Reboot     src/reboot.cpp
--   Boot       main of src/main.cpp
--   Clock      the clock set-up of src/dfu.cpp
--   Loop       setupForUsb, runDfu and the reset of src/dfu.cpp
--   Mode       the DFU mode as main enters it
--   Startup    arm_gd32fx/start.cpp and lnArduino_mini/systemAlloc.cpp
--   Usb        src/usb.cpp and the register macros of src/usb.h: Usb/Regs the registers, Usb/State the
--              globals, Usb/Packet the endpoint's packets, Usb/Descriptors and Usb/Standard the
--              standard requests, Usb/Control the stages of a transfer, Usb/Poll the reset and the
--              poll; Usb/Safe, Usb/SafePacket, Usb/Keeps, Usb/Stages and Usb/Boundary the accesses of
--              all of them; Usb/Valid and Usb/Invariant the invariant; Usb/Phases and Usb/Refine the
--              state machine that they follow; Usb/Kept, Usb/Stall and Usb/Errors the refused transfers;
--              Usb/Register what a store and a completing transfer make of an endpoint's register, by
--              the manual, Usb/Toggle and Usb/Clear the macros that store to it
--   Screen     Screen/Lcd src/lcd.cpp, Screen/Hs src/ili_hs.h, Screen/Ili the display driver
--              stm32f1ili/ili9341_stm32_parallel8.cpp and its header; Screen/Bus what the display
--              sees of the pins, Screen/Says what it is told, Screen/Stream the bytes of iliHS,
--              Screen/Sequence the driver's tables, Screen/Draw, Screen/Picture and Screen/Shows the
--              pictures; Screen/Safe, Screen/SafeDraw and Screen/SafeInit the accesses
--   Tests      concrete machines and sessions
--
-- A function keeps its name, with the leading underscore dropped and in lower case. Globals are
-- fields of the records `Dfu`, `Usb` and `Machine`, and a function that changes them returns new
-- ones. The hardware is a parameter: a `Machine` holds the log of the accesses made and a function
-- from that log to the value of the next load, so that a peripheral may answer as it likes. It
-- promises one thing only, that the flash controller's BSY bit is cleared in the end, and the wait
-- for it is recursion on that promise; the clock set-up takes two more promises as an argument. A
-- store is an entry of the log. The values of the tick counter, which an interrupt changes, are a list
-- in the order in which the code reads them.
--
-- Numbers are natural numbers, and the wrap of a uint8_t, uint16_t or uint32_t is written out. The
-- loop of `check_do_erase` runs on fuel of one round for each kilobyte of the flash and one more, and
-- the loops of `start_c` on fuel of one round for each word and two more. `sendSequence` runs on
-- fuel of a round for each entry of its table and one for the end, `drawHSBitmap` of one for each
-- pixel and one more where it takes one for each eight, and `iliHS::next` of one for each byte of
-- input and one more. All other loops have their number of rounds as an argument. A write to a buffer
-- out of its bounds changes nothing, a read there gives 0.
--
-- Not modelled: the hash of src/xxhash.h, which is a parameter of `main`; libc's start-up, a
-- parameter of `start_c`; the heatshrink library, a parameter of the pictures, as are the compressed
-- pictures; the busy loops of the driver that only take time; the assembler and the traps.
pub mod Common
pub mod Machine
pub mod Config
pub mod Stubs
pub mod Flash
pub mod Dfu
pub mod Board
pub mod Reboot
pub mod Boot
pub mod Usb
pub mod Screen
pub mod Clock
pub mod Loop
pub mod Startup
pub mod Mode
mod Tests
