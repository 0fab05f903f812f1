-- ===== src/Usb/Valid.antt =====
-- The invariant of the control endpoint of src/usb.cpp in the setup stage.
use ln_dso_stm32_dfu_bootloa.Common.{
  ℕ, Bool, true, false, ltb, ◌==◌, arith, Bool-cases, inl, inr, if◌then◌else◌,
}
use ln_dso_stm32_dfu_bootloa.Config.{Config}
use ln_dso_stm32_dfu_bootloa.Dfu.Types.{ReturnCode, notsupp, handled, next_callback}
use ln_dso_stm32_dfu_bootloa.Dfu.{dfu_transfer_size}
use ln_dso_stm32_dfu_bootloa.Dfu.Invariant.{IsValid}
use ln_dso_stm32_dfu_bootloa.Usb.State.{Usb, max_packet_size}
use ln_dso_stm32_dfu_bootloa.Usb.Packet.{usbd_ep_read_packet, usbd_ep_nak_set, stall_transaction}
use ln_dso_stm32_dfu_bootloa.Usb.Control.{
  send_packet, usb_control_send_chunk, answer_read, usb_control_setup_read, usb_control_setup_write,
  usbd_control_setup,
}
use ln_dso_stm32_dfu_bootloa.Usb.Buffer.{dispatch-IsValid}
use ln_dso_stm32_dfu_bootloa.Usb.Receive.{UsbValid}

pub stall-UsbValid : (u : Usb) → IsValid u.dfu → UsbValid (stall_transaction u)
unfolding stall_transaction
stall-UsbValid u v = record { dfu = v; stage = tt }

pub send_chunk-UsbValid : (u : Usb) → IsValid u.dfu → UsbValid (usb_control_send_chunk u)
unfolding usb_control_send_chunk send_packet
send_chunk-UsbValid u v = elim (Bool-cases (ltb max_packet_size u.datasize)) [
  | inl full ↦ rw full (record { dfu = v; stage = tt })
  | inr last ↦ rw last (elim (Bool-cases u.needs_zlp) [
    | inl zlp ↦ record { dfu = v; stage = rw zlp tt }
    | inr done ↦ record { dfu = v; stage = rw done tt }
  ])
]

sent-UsbValid : (w : ℕ) (u : Usb) → IsValid u.dfu → UsbValid (answer_read w handled u)
unfolding answer_read send_packet
sent-UsbValid w u v = elim (Bool-cases (w == 0)) [
  | inl status ↦ rw status (record { dfu = v; stage = tt })
  | inr chunk ↦ rw chunk (send_chunk-UsbValid _ v)
]

answer_read-UsbValid :
    (w : ℕ) (code : ReturnCode) (u : Usb) → IsValid u.dfu → UsbValid (answer_read w code u)
answer_read-UsbValid w notsupp u v = unfold answer_read in stall-UsbValid u v
answer_read-UsbValid w handled u v = sent-UsbValid w u v
answer_read-UsbValid w next_callback u v = unfold answer_read in sent-UsbValid w u v

setup_read-UsbValid :
    (cfg : Config) (u : Usb) → IsValid u.dfu → UsbValid (usb_control_setup_read cfg u)
unfolding usb_control_setup_read
setup_read-UsbValid cfg u v =
    answer_read-UsbValid u.req.w_length _ _ (dispatch-IsValid cfg (record u { dataoff = 0 }) v)

-- Both branches of a test are valid.
pub if-UsbValid :
    (b : Bool) (u u' : Usb) → UsbValid u → UsbValid u' → UsbValid (if b then u else u')
if-UsbValid true u u' v v' = v
if-UsbValid false u u' v v' = v'

setup_write-UsbValid : (u : Usb) → IsValid u.dfu → UsbValid (usb_control_setup_write u)
unfolding usb_control_setup_write usbd_ep_nak_set
setup_write-UsbValid u v = elim (Bool-cases (ltb dfu_transfer_size u.req.w_length)) [
  | inl large ↦ rw large (stall-UsbValid u v)
  | inr fits ↦ rw fits (elim (Bool-cases (ltb max_packet_size u.req.w_length)) [
    | inl more ↦ record { dfu = v; stage = rw more (ground arith, ground arith) }
    | inr last ↦ record { dfu = v; stage = rw last (ground arith, ground arith, ground arith) }
  ])
]

pub setup-UsbValid : (cfg : Config) (u : Usb) → IsValid u.dfu → UsbValid (usbd_control_setup cfg u)
unfolding usbd_control_setup usbd_ep_nak_set usbd_ep_read_packet
setup-UsbValid cfg u v =
    if-UsbValid _ _ _ (stall-UsbValid _ v)
      (if-UsbValid _ _ _ (setup_read-UsbValid cfg _ v) (setup_write-UsbValid _ v))
