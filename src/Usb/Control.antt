-- ===== src/Usb/Control.antt =====
-- The control endpoint of src/usb.cpp: the dispatch of requests and the stages of a transfer.
use ln_dso_stm32_dfu_bootloa.Common.{
  ℕ, ◌+◌, ◌-◌, ◌/◌, ◌%◌, Bool, true, false, not, ◌&&◌, ◌||◌, List, [], ◌∷◌, length, get_or, overlay,
  u16, half_at, leb, ltb, bit_and, bit_or, ◌==◌, if◌then◌else◌,
}
use ln_dso_stm32_dfu_bootloa.Config.{Config}
use ln_dso_stm32_dfu_bootloa.Dfu.Types.{SetupData, ReturnCode, notsupp, next_callback}
use ln_dso_stm32_dfu_bootloa.Dfu.{dfu_transfer_size, usbdfu_getstatus_complete}
use ln_dso_stm32_dfu_bootloa.Dfu.Requests.{usbdfu_control_request}
use ln_dso_stm32_dfu_bootloa.Usb.Regs.{set_reg, usb_daddr_reg}
use ln_dso_stm32_dfu_bootloa.Usb.State.{
  Usb, Fsm, idle, data_in, last_data_in, status_in, data_out, last_data_out, status_out,
  max_packet_size, on_machine, on_buffer,
}
use ln_dso_stm32_dfu_bootloa.Usb.Packet.{
  usbd_ep_write_packet, usbd_ep_read_packet, usbd_ep_nak_set, stall_transaction,
}
use ln_dso_stm32_dfu_bootloa.Usb.Standard.{
  usbd_standard_request, usb_req_set_address, usb_req_type_type, usb_req_type_recipient,
  usb_req_type_class, usb_req_type_interface,
}

-- `_usbd_ep_write_packet(0, &usbd_control_buffer[off], len)`, its result ignored
unfoldable pub send_packet : ℕ → ℕ → Usb → Usb
send_packet off len u = on_machine (λ m. (usbd_ep_write_packet 0 u.dfu.buffer off len m).1) u

unfoldable pub usb_control_send_chunk : Usb → Usb
usb_control_send_chunk u =
    if ltb max_packet_size u.datasize
    then record (send_packet u.dataoff max_packet_size u) {
      fsm = data_in;
      dataoff = u16 (u.dataoff + max_packet_size);
      datasize = u.datasize - max_packet_size;
    }
    else record (send_packet u.dataoff u.datasize u) {
      fsm = if u.needs_zlp then data_in else last_data_in;
      needs_zlp = false;
      datasize = 0;
    }

-- `MIN(dev_desc.bMaxPacketSize0, usb_req.wLength - datasize)`, an int that is stored as a uint16_t
abbrev pub packet_size : ℕ → ℕ → ℕ
packet_size w_length datasize =
    if ltb max_packet_size (w_length - datasize)
    then max_packet_size
    else u16 (w_length + 65536 - datasize)

-- Whether the packet was received; the source returns its size or -1.
unfoldable pub usb_control_recv_chunk : Usb → Bool × Usb
usb_control_recv_chunk u =
    let size = packet_size u.req.w_length u.datasize in
    let (bytes, u') = usbd_ep_read_packet 0 size u in
    let u'' = on_buffer (λ b. overlay b u.datasize bytes) u' in
    if length bytes == size
    then (true, record u'' { datasize = u16 (u.datasize + size) })
    else (false, stall_transaction u'')

-- `usbdfu_control_request(&usb_req, &datasize, &usb_complete_cb)` with `datasize` set to wLength
unfoldable pub dfu_request : Config → Usb → ReturnCode × Usb
dfu_request cfg u =
    let r = usbdfu_control_request cfg u.req u.req.w_length u.complete_cb u.dfu u.machine in
    (
      r.code,
      record u { datasize = r.len; complete_cb = r.complete; dfu = r.dfu; machine = r.machine },
    )

abbrev pub is_done : ReturnCode → Bool
is_done next_callback = false
is_done _ = true

-- A class request to the interface goes to the DFU code first.
unfoldable pub usb_control_request_dispatch : Config → Usb → ReturnCode × Usb
usb_control_request_dispatch cfg u =
    let (code, u') = dfu_request cfg u in
    if bit_and u.req.bm_request_type (bit_or usb_req_type_type usb_req_type_recipient)
      == bit_or usb_req_type_class usb_req_type_interface
    then if is_done code then (code, u') else usbd_standard_request cfg u'
    else usbd_standard_request cfg u

unfoldable pub needs_zlp_after : ℕ → ℕ → ℕ → Bool
needs_zlp_after len w_length ep_size = ltb len w_length && (not (len == 0) && (len % ep_size == 0))

-- The body of `_usb_control_setup_read` after the dispatch.
unfoldable pub answer_read : ℕ → ReturnCode → Usb → Usb
answer_read maxdataout notsupp u = stall_transaction u
answer_read maxdataout _ u =
    let size = if ltb maxdataout u.datasize then maxdataout else u.datasize in
    if maxdataout == 0
    then record (send_packet 0 0 (record u { datasize = size })) { fsm = status_in }
    else usb_control_send_chunk
        (record u { datasize = size; needs_zlp = needs_zlp_after size maxdataout max_packet_size })

unfoldable pub usb_control_setup_read : Config → Usb → Usb
usb_control_setup_read cfg u =
    let (code, u') = usb_control_request_dispatch cfg (record u { dataoff = 0 }) in
    answer_read u.req.w_length code u'

unfoldable pub usb_control_setup_write : Usb → Usb
usb_control_setup_write u =
    if ltb dfu_transfer_size u.req.w_length
    then stall_transaction u
    else usbd_ep_nak_set 0 0 (record u {
      datasize = 0;
      fsm = if ltb max_packet_size u.req.w_length then data_out else last_data_out;
    })

-- The eight bytes of `struct usb_setup_data`, and the struct that holds eight bytes.
abbrev pub setup_bytes : SetupData → List ℕ
setup_bytes r =
    r.bm_request_type
    ∷ r.b_request
    ∷ r.w_value % 256
    ∷ r.w_value / 256
    ∷ r.w_index % 256
    ∷ r.w_index / 256
    ∷ r.w_length % 256
    ∷ r.w_length / 256
    ∷ []

abbrev pub setup_of : List ℕ → SetupData
setup_of b = record {
  bm_request_type = get_or b 0 0;
  b_request = get_or b 1 0;
  w_value = half_at b 2;
  w_index = half_at b 4;
  w_length = half_at b 6;
}

-- A setup packet that has the size of the struct is answered; a shorter one leaves its bytes in
-- `usb_req`.
unfoldable pub usbd_control_setup : Config → Usb → Usb
usbd_control_setup cfg u =
    let u = usbd_ep_nak_set 0 1 (record u { complete_cb = false }) in
    let (bytes, u) = usbd_ep_read_packet 0 8 u in
    let u = record u { req = setup_of (overlay (setup_bytes u.req) 0 bytes) } in
    if not (length bytes == 8)
    then stall_transaction u
    else if (u.req.w_length == 0) || leb 128 u.req.bm_request_type
    then usb_control_setup_read cfg u
    else usb_control_setup_write u

-- `if (usb_complete_cb) usb_complete_cb(&usb_req);`
unfoldable pub run_callback : Config → Usb → Usb
run_callback cfg u =
    let (d, m) = usbdfu_getstatus_complete cfg u.dfu u.machine in
    if u.complete_cb then record u { dfu = d; machine = m } else u

-- The end of the data stage of a write.
unfoldable pub finish_write : ReturnCode → Usb → Usb
finish_write notsupp u = stall_transaction u
finish_write _ u = record (send_packet 0 0 u) { fsm = status_in }

unfoldable pub control_out : Config → Fsm → Usb → Usb
control_out cfg data_out u =
    let (ok, u) = usb_control_recv_chunk u in
    if ok && leb u.req.w_length (u.datasize + max_packet_size)
    then record u { fsm = last_data_out }
    else u
control_out cfg last_data_out u =
    let (ok, u) = usb_control_recv_chunk u in
    let (code, u') = usb_control_request_dispatch cfg u in if ok then finish_write code u' else u
control_out cfg status_out u =
    let (bytes, u) = usbd_ep_read_packet 0 0 u in
    record (run_callback cfg (record u { fsm = idle })) { complete_cb = false }
control_out cfg _ u = stall_transaction u

unfoldable pub usbd_control_out : Config → Usb → Usb
usbd_control_out cfg u = control_out cfg u.fsm u

-- The address is latched here, at the status stage of SET_ADDRESS.
unfoldable pub latch_address : Usb → Usb
latch_address u =
    if (u.req.bm_request_type == 0) && (u.req.b_request == usb_req_set_address)
    then on_machine (set_reg usb_daddr_reg (bit_or (bit_and u.req.w_value 0x7f) 0x80)) u
    else u

unfoldable pub control_in : Config → Fsm → Usb → Usb
control_in cfg data_in u = usb_control_send_chunk u
control_in cfg last_data_in u = usbd_ep_nak_set 0 0 (record u { fsm = status_out })
control_in cfg status_in u = record (latch_address (run_callback cfg u)) { fsm = idle }
control_in cfg _ u = stall_transaction u

unfoldable pub usbd_control_in : Config → Usb → Usb
usbd_control_in cfg u = control_in cfg u.fsm u
