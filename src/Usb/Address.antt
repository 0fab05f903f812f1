-- ===== src/Usb/Address.antt =====
-- SET_ADDRESS in src/usb.cpp: when the address register is written.
use ln_dso_stm32_dfu_bootloa.Common.{
  ℕ, ◌+◌, ◌<◌, ◌≡◌, refl, false, some, ◌==◌, leb, arith, ap, bit_and, bit_or, ltb, if◌then◌else◌,
  u16, holds_below_sound, ==→eq,
}
use ln_dso_stm32_dfu_bootloa.Machine.{load, store}
use ln_dso_stm32_dfu_bootloa.Machine.Trace.{stored_word}
use ln_dso_stm32_dfu_bootloa.Config.{Config}
use ln_dso_stm32_dfu_bootloa.Dfu.Types.{handled}
use ln_dso_stm32_dfu_bootloa.Usb.Regs.{
  usb_daddr_reg, set_entry, entry_reg, get_reg, set_reg, get_ep_buff, get_entry, usb_set_ep_tx_stat,
  tog_set_reg_bit_msk_and_set,
}
use ln_dso_stm32_dfu_bootloa.Usb.State.{Usb, status_in, idle, on_machine}
use ln_dso_stm32_dfu_bootloa.Usb.Packet.{
  st_usbfs_copy_to_pm, copy_to_pm, has_stat, usbd_ep_write_packet,
}
use ln_dso_stm32_dfu_bootloa.Usb.Standard.{usbd_standard_request, usbd_standard_request_device}
use ln_dso_stm32_dfu_bootloa.Usb.Control.{
  send_packet, usb_control_request_dispatch, answer_read, usb_control_setup_read, run_callback,
  latch_address, control_in, usbd_control_in,
}

latched : (a : ℕ) → a < 128 → u16 (bit_or (bit_and a 0x7f) 0x80) ≡ 128 + a
latched a lt =
    ==→eq (u16 (bit_or (bit_and a 0x7f) 0x80)) (128 + a)
      (holds_below_sound (λ a. u16 (bit_or (bit_and a 0x7f) 0x80) == 128 + a) 128 a refl lt)

set_address_dispatch :
    (cfg : Config) (u : Usb)
    → u.req.bm_request_type ≡ 0
    → u.req.b_request ≡ 5
    → u.req.w_value < 128
    → usb_control_request_dispatch cfg u ≡ (handled, u)
unfolding usb_control_request_dispatch usbd_standard_request usbd_standard_request_device
set_address_dispatch cfg u bm rq small = simp (bm, rq, fits)
  where
    fits : leb 128 u.req.w_value ≡ false
    fits = ground arith

-- A packet of length zero does not touch the address register.
empty_packet :
    (u : Usb)
    → stored_word (send_packet 0 0 u).machine.log usb_daddr_reg
      ≡ stored_word u.machine.log usb_daddr_reg
unfolding send_packet usbd_ep_write_packet st_usbfs_copy_to_pm copy_to_pm set_entry entry_reg
    get_reg set_reg get_ep_buff get_entry has_stat usb_set_ep_tx_stat tog_set_reg_bit_msk_and_set
    load store
empty_packet u = ground arith

-- The machine in the status stage of SET_ADDRESS.
in_status : Usb → Usb
in_status u =
    record (send_packet 0 0
      (record u { dataoff = 0; datasize = if ltb 0 u.datasize then 0 else u.datasize })) {
        fsm = status_in;
      }

set_address_read :
    (cfg : Config) (u : Usb)
    → u.req.bm_request_type ≡ 0
    → u.req.b_request ≡ 5
    → u.req.w_value < 128
    → u.req.w_length ≡ 0
    → usb_control_setup_read cfg u ≡ in_status u
unfolding usb_control_setup_read in_status answer_read
set_address_read cfg u bm rq small empty =
    rw (set_address_dispatch cfg (record u { dataoff = 0 }) bm rq small) (rw empty refl)

status_stage :
    (cfg : Config) (u : Usb)
    → u.req.bm_request_type ≡ 0
    → u.req.b_request ≡ 5
    → u.complete_cb ≡ false
    → usbd_control_in cfg (in_status u)
      ≡ record (on_machine
          (set_reg usb_daddr_reg (bit_or (bit_and u.req.w_value 0x7f) 0x80))
          (in_status u)) { fsm = idle }
unfolding usbd_control_in control_in in_status send_packet run_callback latch_address
status_stage cfg u bm rq none = simp (bm, rq, none)

-- SET_ADDRESS with an address below 128 and no data, and no callback pending: the setup stage
-- goes to STATUS_IN and leaves the address register as it is, and the IN transaction after it
-- writes the address with the enable bit to the register and goes to IDLE.
pub set_address_is_latched :
    (cfg : Config) (u : Usb)
    → u.req.bm_request_type ≡ 0
    → u.req.b_request ≡ 5
    → u.req.w_value < 128
    → u.req.w_length ≡ 0
    → u.complete_cb ≡ false
    → let v = usb_control_setup_read cfg u in
      let w = usbd_control_in cfg v in
      (v.fsm ≡ status_in)
      × (stored_word v.machine.log usb_daddr_reg ≡ stored_word u.machine.log usb_daddr_reg)
      × (w.fsm ≡ idle)
      × (stored_word w.machine.log usb_daddr_reg ≡ some (128 + u.req.w_value))
set_address_is_latched cfg u bm rq small empty none =
    rw (set_address_read cfg u bm rq small empty, status_stage cfg u bm rq none)
      (
        unfold in_status in refl,
        unfold in_status in empty_packet _,
        refl,
        unfold set_reg store in ap some (latched u.req.w_value small),
      )
