-- ===== src/Usb/Standard.antt =====
-- The standard requests of src/usb.cpp.
use ln_dso_stm32_dfu_bootloa.Common.{
  ℕ, zero, suc, ◌+◌, ◌*◌, not, ◌||◌, List, [], ◌∷◌, u8, leb, bit_and, ◌==◌, if◌then◌else◌, overlay,
}
use ln_dso_stm32_dfu_bootloa.Machine.{Machine}
use ln_dso_stm32_dfu_bootloa.Config.{Config}
use ln_dso_stm32_dfu_bootloa.Dfu.Types.{ReturnCode, handled, notsupp}
use ln_dso_stm32_dfu_bootloa.Usb.Regs.{disabled, usb_set_ep_tx_stat, usb_set_ep_rx_stat}
use ln_dso_stm32_dfu_bootloa.Usb.State.{Usb, max_packet_size, usbd_pm_top, on_machine, on_buffer}
use ln_dso_stm32_dfu_bootloa.Usb.Packet.{ep_stall_set, ep_stall_get}
use ln_dso_stm32_dfu_bootloa.Usb.Descriptors.{configuration_value, usb_standard_get_descriptor}

abbrev pub usb_req_get_status : ℕ
usb_req_get_status = 0

abbrev pub usb_req_clear_feature : ℕ
usb_req_clear_feature = 1

abbrev pub usb_req_set_feature : ℕ
usb_req_set_feature = 3

abbrev pub usb_req_set_address : ℕ
usb_req_set_address = 5

abbrev pub usb_req_get_descriptor : ℕ
usb_req_get_descriptor = 6

abbrev pub usb_req_get_configuration : ℕ
usb_req_get_configuration = 8

abbrev pub usb_req_set_configuration : ℕ
usb_req_set_configuration = 9

abbrev pub usb_req_get_interface : ℕ
usb_req_get_interface = 10

abbrev pub usb_req_set_interface : ℕ
usb_req_set_interface = 11

abbrev pub usb_req_type_type : ℕ
usb_req_type_type = 0x60

abbrev pub usb_req_type_standard : ℕ
usb_req_type_standard = 0

abbrev pub usb_req_type_class : ℕ
usb_req_type_class = 0x20

abbrev pub usb_req_type_recipient : ℕ
usb_req_type_recipient = 0x1f

abbrev pub usb_req_type_device : ℕ
usb_req_type_device = 0

abbrev pub usb_req_type_interface : ℕ
usb_req_type_interface = 1

abbrev pub usb_req_type_endpoint : ℕ
usb_req_type_endpoint = 2

abbrev pub usb_feat_endpoint_halt : ℕ
usb_feat_endpoint_halt = 0

-- The reply `bytes` at the start of the control buffer.
abbrev pub reply : List ℕ → ℕ → Usb → Usb
reply bytes size u = record (on_buffer (λ b. overlay b 0 bytes) u) { datasize = size }

-- The loop of SET_CONFIGURATION: `n` endpoints are left, from `ep` on.
unfoldable pub disable_endpoints : ℕ → ℕ → Machine → Machine
disable_endpoints zero ep m = m
disable_endpoints (suc n) ep m =
    disable_endpoints n (ep + 1) (usb_set_ep_rx_stat ep disabled (usb_set_ep_tx_stat ep disabled m))

unfoldable pub usbd_standard_request_device : Config → Usb → ReturnCode × Usb
usbd_standard_request_device cfg u =
    let r = u.req.b_request in
    if r == usb_req_set_address
    then (if not (u.req.bm_request_type == 0) || leb 128 u.req.w_value then notsupp else handled, u)
    else if r == usb_req_set_configuration
    then if u.req.w_value == configuration_value
      then (
        handled,
        record (on_machine (disable_endpoints 7 1) u) {
          pm_top = usbd_pm_top + 2 * max_packet_size;
        },
      )
      else (notsupp, u)
    else if r == usb_req_get_configuration
    then (handled, reply (1 ∷ []) 1 u)
    else if r == usb_req_get_descriptor
    then usb_standard_get_descriptor cfg u
    else if r == usb_req_get_status
    then (handled, reply (0 ∷ 0 ∷ []) 2 u)
    else (notsupp, u)

unfoldable pub usbd_standard_request_interface : Usb → ReturnCode × Usb
usbd_standard_request_interface u =
    let r = u.req.b_request in
    if r == usb_req_get_interface
    then (handled, reply (1 ∷ []) 1 u)
    else if r == usb_req_set_interface
    then (handled, record u { datasize = 0 })
    else if r == usb_req_get_status
    then (notsupp, reply (0 ∷ 0 ∷ []) 2 u)
    else (notsupp, u)

-- The endpoint number is the low byte of wIndex.
unfoldable pub usbd_standard_request_endpoint : Usb → ReturnCode × Usb
usbd_standard_request_endpoint u =
    let r = u.req.b_request in
    let ep = u8 u.req.w_index in
    if (r == usb_req_clear_feature) || (r == usb_req_set_feature)
    then if u.req.w_value == usb_feat_endpoint_halt
      then (handled, on_machine (ep_stall_set ep (r == usb_req_set_feature)) u)
      else (notsupp, u)
    else if r == usb_req_get_status
    then (let (halted, m) = ep_stall_get ep u.machine in
        (handled, reply ((if halted then 1 else 0) ∷ 0 ∷ []) 2 (record u { machine = m })))
    else (notsupp, u)

unfoldable pub usbd_standard_request : Config → Usb → ReturnCode × Usb
usbd_standard_request cfg u =
    let recipient = bit_and u.req.bm_request_type usb_req_type_recipient in
    if not (bit_and u.req.bm_request_type usb_req_type_type == usb_req_type_standard)
    then (notsupp, u)
    else if recipient == usb_req_type_device
    then usbd_standard_request_device cfg u
    else if recipient == usb_req_type_interface
    then usbd_standard_request_interface u
    else if recipient == usb_req_type_endpoint
    then usbd_standard_request_endpoint u
    else (notsupp, u)
