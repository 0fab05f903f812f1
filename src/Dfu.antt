-- ===== src/Dfu.antt =====
-- The DFU mode of src/dfu.cpp: its globals and the completion of GETSTATUS. A function that changes the globals `usbdfu_state`, `prog`
-- and `usbd_control_buffer`, or the static `erased` of src/flash.h, returns them in a new record.
pub mod Types
pub mod Requests
pub mod Guard
pub mod Graph
pub mod Session
pub mod Invariant
pub mod Status
pub mod Download
pub mod Block
pub mod Image
pub mod Safety
pub mod Serial
pub mod Answer
pub mod Protocol
use ln_dso_stm32_dfu_bootloa.Common.{
  ℕ, zero, suc, ◌+◌, ◌-◌, ◌*◌, ◌/◌, ◌%◌, Bool, true, false, ◌&&◌, List, [], ◌∷◌, Option, none, some,
  set, get_or, overlay, u8, u32, word_at, ltb, leb, ◌==◌, if◌then◌else◌,
}
use ln_dso_stm32_dfu_bootloa.Machine.{Machine, byte, load}
use ln_dso_stm32_dfu_bootloa.Config.{Config, start_addr, end_addr}
use ln_dso_stm32_dfu_bootloa.Flash.{
  flash_unlock, flash_lock, flash_program_buffer, ensure_erased, check_do_erase,
}
use ln_dso_stm32_dfu_bootloa.Stubs.{memcpy}
use ln_dso_stm32_dfu_bootloa.Dfu.Types.{
  DfuReq, detach, dnload, upload, getstatus, clrstatus, getstate, abort, dfu_req, dfu_status_ok,
  DfuState, idle, dnload_sync, dnbusy, dnload_idle, manifest_sync, manifest, upload_idle, error,
  state_code, SetupData, ReturnCode, handled, next_callback,
}

abbrev pub cmd_setaddr : ℕ
cmd_setaddr = 0x21

abbrev pub cmd_erase : ℕ
cmd_erase = 0x41

abbrev pub dfu_transfer_size : ℕ
dfu_transfer_size = 1024

-- the static `prog`
pub record Prog : Type 0 where
  pub buf : List ℕ
  pub len : ℕ
  pub addr : ℕ
  pub blocknum : ℕ

-- `buffer` is `usbd_control_buffer`, which the USB code fills and sends.
pub record Dfu : Type 0 where
  pub state : DfuState
  pub prog : Prog
  pub erased : Bool
  pub buffer : List ℕ

-- the status, the poll timeout and the new state
unfoldable pub usbdfu_getstatus : DfuState → ℕ × ℕ × DfuState
usbdfu_getstatus dnload_sync = (dfu_status_ok, 100, dnbusy)
usbdfu_getstatus manifest_sync = (dfu_status_ok, 0, manifest)
usbdfu_getstatus error = (state_code error, 0, error)
usbdfu_getstatus s = (dfu_status_ok, 0, s)

-- `addr + (blocknum - 2) * DFU_TRANSFER_SIZE`: the product is an int, the sum wraps as a uint32_t.
abbrev pub block_addr : ℕ → ℕ → ℕ
block_addr addr blocknum =
    u32 (addr + 4294967296 + blocknum * dfu_transfer_size - 2 * dfu_transfer_size)

-- `base >= start_addr && base + n <= end_addr` on uint32_t
abbrev pub in_app : Config → ℕ → ℕ → Bool
in_app cfg base n = leb (start_addr cfg) base && leb (u32 (base + n)) (end_addr cfg)

-- `#ifdef ENABLE_SAFEWRITE check_do_erase(); #endif`
unfoldable pub safewrite : Config → Dfu → Machine → Dfu × Machine
safewrite cfg d m =
    if cfg.enable_safewrite
    then (let (e, m') = check_do_erase cfg d.erased m in (record d { erased = e }, m'))
    else (d, m)

unfoldable pub erase_command : Config → Dfu → Machine → Dfu × Machine
erase_command cfg d m =
    let (d, m) = safewrite cfg d m in
    let baseaddr = word_at d.prog.buf 1 in
    (d, if in_app cfg baseaddr dfu_transfer_size then ensure_erased baseaddr m else m)

unfoldable pub setaddr_command : Dfu → Dfu
setaddr_command d = record d { prog = record (d.prog) { addr = word_at d.prog.buf 1 } }

unfoldable pub write_block : Config → Dfu → Machine → Dfu × Machine
write_block cfg d m =
    let (d, m) = safewrite cfg d m in
    let baseaddr = block_addr d.prog.addr d.prog.blocknum in
    (
      d,
      if in_app cfg baseaddr d.prog.len
          then flash_program_buffer baseaddr d.prog.buf d.prog.len (ensure_erased baseaddr m)
          else m,
    )

-- The body of the case STATE_DFU_DNBUSY between the unlocking and the locking of the flash.
unfoldable pub run_download : Config → Dfu → Machine → Dfu × Machine
run_download cfg d m =
    if d.prog.blocknum == 0
    then if get_or d.prog.buf 0 0 == cmd_erase
      then erase_command cfg d m
      else if get_or d.prog.buf 0 0 == cmd_setaddr
      then (setaddr_command d, m)
      else (d, m)
    else write_block cfg d m

unfoldable pub complete_in : Config → DfuState → Dfu → Machine → Dfu × Machine
complete_in cfg dnbusy d m =
    let (d, m) = run_download cfg d (flash_unlock false m) in
    (record d { state = dnload_idle }, flash_lock m)
complete_in cfg s d m = (d, m)

unfoldable pub usbdfu_getstatus_complete : Config → Dfu → Machine → Dfu × Machine
usbdfu_getstatus_complete cfg d m = complete_in cfg d.state d m
