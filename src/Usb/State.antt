-- ===== src/Usb/State.antt =====
-- The globals of src/usb.cpp, with those of src/dfu.cpp and the hardware that its functions reach.
use ln_dso_stm32_dfu_bootloa.Common.{ℕ, Bool, List}
use ln_dso_stm32_dfu_bootloa.Machine.{Machine}
use ln_dso_stm32_dfu_bootloa.Dfu.Types.{SetupData}
use ln_dso_stm32_dfu_bootloa.Dfu.{Dfu}

-- the USB FSM state
pub data Fsm : Type 0 where
  idle stalled data_in last_data_in status_in data_out last_data_out status_out : Fsm

-- `complete_cb` tells whether `usb_complete_cb` is `usbdfu_getstatus_complete` or null. `strings` is
-- `_usb_strings`; `usbd_control_buffer` is `dfu.buffer`.
pub record Usb : Type 0 where
  pub fsm : Fsm
  pub datasize : ℕ
  pub dataoff : ℕ
  pub pm_top : ℕ
  pub needs_zlp : Bool
  pub req : SetupData
  pub force_nak : List ℕ
  pub complete_cb : Bool
  pub strings : List (List ℕ)
  pub dfu : Dfu
  pub machine : Machine

abbrev pub max_packet_size : ℕ
max_packet_size = 64

abbrev pub usbd_pm_top : ℕ
usbd_pm_top = 0x40

-- A change of the hardware, and one of the control buffer.
abbrev pub on_machine : (Machine → Machine) → Usb → Usb
on_machine f u = record u { machine = f u.machine }

abbrev pub on_buffer : (List ℕ → List ℕ) → Usb → Usb
on_buffer f u = record u { dfu = record (u.dfu) { buffer = f u.dfu.buffer } }
