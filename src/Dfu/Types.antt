-- ===== src/Dfu/Types.antt =====
-- The DFU request codes and states, the setup packet and the return codes of src/usb.h.
use ln_dso_stm32_dfu_bootloa.Common.{ℕ, zero, suc, Option, none, some}

-- `enum dfu_req`
pub data DfuReq : Type 0 where
  detach dnload upload getstatus clrstatus getstate abort : DfuReq

-- the `case` labels of a switch over `bRequest`
abbrev pub dfu_req : ℕ → Option DfuReq
dfu_req zero = some detach
dfu_req (suc zero) = some dnload
dfu_req (suc (suc zero)) = some upload
dfu_req (suc (suc (suc zero))) = some getstatus
dfu_req (suc (suc (suc (suc zero)))) = some clrstatus
dfu_req (suc (suc (suc (suc (suc zero))))) = some getstate
dfu_req (suc (suc (suc (suc (suc (suc zero)))))) = some abort
dfu_req (suc (suc (suc (suc (suc (suc (suc n))))))) = none

-- `enum dfu_status`
pub data DfuStatus : Type 0 where
  ok err_target err_file err_write err_erase err_check_erased err_prog err_verify : DfuStatus
  err_address err_notdone err_firmware err_vendor err_usbr err_por err_unknown : DfuStatus
  err_stalledpkt : DfuStatus

abbrev pub status_code : DfuStatus → ℕ
status_code ok = 0
status_code err_target = 1
status_code err_file = 2
status_code err_write = 3
status_code err_erase = 4
status_code err_check_erased = 5
status_code err_prog = 6
status_code err_verify = 7
status_code err_address = 8
status_code err_notdone = 9
status_code err_firmware = 10
status_code err_vendor = 11
status_code err_usbr = 12
status_code err_por = 13
status_code err_unknown = 14
status_code err_stalledpkt = 15

abbrev pub dfu_status_ok : ℕ
dfu_status_ok = status_code ok

abbrev pub dfu_status_err_firmware : ℕ
dfu_status_err_firmware = status_code err_firmware

-- `enum dfu_state`
pub data DfuState : Type 0 where
  app_idle app_detach idle dnload_sync dnbusy dnload_idle : DfuState
  manifest_sync manifest manifest_wait_reset upload_idle error : DfuState

abbrev pub state_code : DfuState → ℕ
state_code app_idle = 0
state_code app_detach = 1
state_code idle = 2
state_code dnload_sync = 3
state_code dnbusy = 4
state_code dnload_idle = 5
state_code manifest_sync = 6
state_code manifest = 7
state_code manifest_wait_reset = 8
state_code upload_idle = 9
state_code error = 10

-- `struct usb_setup_data`
pub record SetupData : Type 0 where
  pub bm_request_type : ℕ
  pub b_request : ℕ
  pub w_value : ℕ
  pub w_index : ℕ
  pub w_length : ℕ

-- `enum usbd_request_return_codes`
pub data ReturnCode : Type 0 where
  notsupp handled next_callback : ReturnCode
