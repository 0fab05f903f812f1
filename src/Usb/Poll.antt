-- ===== src/Usb/Poll.antt =====
-- The reset and the polling loop's body of src/usb.cpp.
use ln_dso_stm32_dfu_bootloa.Common.{
  ℕ, ◌+◌, ◌-◌, ◌*◌, ◌%◌, ◌||◌, u16, u32, leb, ltb, bit_and, bit_or, not32, ◌==◌, if◌then◌else◌,
}
use ln_dso_stm32_dfu_bootloa.Machine.{Machine, word, load, keep_bits, set_bits}
use ln_dso_stm32_dfu_bootloa.Config.{Config}
use ln_dso_stm32_dfu_bootloa.Usb.Regs.{
  nak, valid, set_reg, clr_reg_bit, usb_cntr_reg, usb_istr_reg, usb_daddr_reg, usb_btable_reg,
  usb_ep_reg, usb_ep_setup, usb_set_ep_addr, usb_set_ep_type, usb_set_ep_tx_stat,
  usb_set_ep_rx_stat, usb_clr_ep_tx_dtog, usb_clr_ep_rx_dtog, usb_clr_ep_tx_ctr, tx_addr, rx_addr,
  rx_count, set_entry,
}
use ln_dso_stm32_dfu_bootloa.Usb.State.{Usb, max_packet_size, usbd_pm_top, on_machine}
use ln_dso_stm32_dfu_bootloa.Usb.Control.{usbd_control_setup, usbd_control_out, usbd_control_in}

abbrev pub usb_istr_ctr : ℕ
usb_istr_ctr = 0x8000

abbrev pub usb_istr_wkup : ℕ
usb_istr_wkup = 0x1000

abbrev pub usb_istr_susp : ℕ
usb_istr_susp = 0x0800

abbrev pub usb_istr_reset : ℕ
usb_istr_reset = 0x0400

abbrev pub usb_istr_sof : ℕ
usb_istr_sof = 0x0200

abbrev pub usb_istr_dir : ℕ
usb_istr_dir = 0x0010

abbrev pub usb_istr_ep_id : ℕ
usb_istr_ep_id = 0x000f

abbrev pub usb_cntr_sofm : ℕ
usb_cntr_sofm = 0x0200

-- USB_CNTR_RESETM | USB_CNTR_CTRM | USB_CNTR_SUSPM | USB_CNTR_WKUPM
abbrev pub usb_cntr_masks : ℕ
usb_cntr_masks = 0x9c00

-- the bit RCC_USB of RCC_APB1ENR
abbrev pub rcc_apb1enr : ℕ
rcc_apb1enr = 0x4002101c

unfoldable pub usb_init : Machine → Machine
usb_init m =
    let m = set_bits rcc_apb1enr 0x800000 m in
    let m = set_reg usb_cntr_reg 0 m in
    let m = set_reg usb_btable_reg 0 m in
    let m = set_reg usb_istr_reg 0 m in set_reg usb_cntr_reg usb_cntr_masks m

-- The value of an endpoint's RX count register for a buffer of `size` bytes.
unfoldable pub rx_bufsize : ℕ → ℕ
rx_bufsize size =
    if ltb 62 size
    then bit_or (u32 ((if size % 32 == 0 then size else size - 32) * 32)) 0x8000
    else u32 ((if size % 2 == 0 then size else size + 1) * 1024)

unfoldable pub set_ep_rx_bufsize : ℕ → ℕ → Machine → Machine
set_ep_rx_bufsize ep size m = set_entry rx_count ep (rx_bufsize size) m

-- the transfer types of the USB standard, and the endpoint types of the peripheral
abbrev pub usb_endpoint_attr_control : ℕ
usb_endpoint_attr_control = 0

abbrev pub usb_endpoint_attr_isochronous : ℕ
usb_endpoint_attr_isochronous = 1

abbrev pub usb_endpoint_attr_bulk : ℕ
usb_endpoint_attr_bulk = 2

abbrev pub usb_ep_type_control : ℕ
usb_ep_type_control = 0x0200

abbrev pub usb_ep_type_iso : ℕ
usb_ep_type_iso = 0x0400

abbrev pub usb_ep_type_bulk : ℕ
usb_ep_type_bulk = 0x0000

abbrev pub usb_ep_type_interrupt : ℕ
usb_ep_type_interrupt = 0x0600

-- `typelookup`, of which the last entry is USB_ENDPOINT_ATTR_INTERRUPT
abbrev pub type_lookup : ℕ → ℕ
type_lookup type =
    if type == usb_endpoint_attr_control
    then usb_ep_type_control
    else if type == usb_endpoint_attr_isochronous
    then usb_ep_type_iso
    else if type == usb_endpoint_attr_bulk
    then usb_ep_type_bulk
    else usb_ep_type_interrupt

-- The two halves of `_usbd_ep_setup`; the packet memory is allocated from `usb_pm_top` up.
unfoldable pub setup_tx : ℕ → ℕ → Usb → Usb
setup_tx addr max_size u =
    record (on_machine
      (λ m.
        usb_set_ep_tx_stat addr nak (usb_clr_ep_tx_dtog addr (set_entry tx_addr addr u.pm_top m)))
      u) { pm_top = u16 (u.pm_top + max_size) }

unfoldable pub setup_rx : ℕ → ℕ → Usb → Usb
setup_rx addr max_size u =
    record (on_machine
      (λ m. usb_set_ep_rx_stat addr valid (
        usb_clr_ep_rx_dtog addr
          (set_ep_rx_bufsize addr max_size (set_entry rx_addr addr u.pm_top m))))
      u) { pm_top = u16 (u.pm_top + max_size) }

unfoldable pub usbd_ep_setup : ℕ → ℕ → ℕ → Usb → Usb
usbd_ep_setup addr type max_size u =
    let dir = leb 128 addr in
    let addr = addr % 128 in
    let u =
      on_machine (λ m. usb_set_ep_type addr (type_lookup type) (usb_set_ep_addr addr addr m)) u in
    let u = if dir || (addr == 0) then setup_tx addr max_size u else u in
    if dir then u else setup_rx addr max_size u

-- The answer to a bus reset.
unfoldable pub on_reset : Usb → Usb
on_reset u =
    let u = record (on_machine (clr_reg_bit usb_istr_reg usb_istr_reset) u) {
      pm_top = usbd_pm_top;
    } in
    on_machine (set_reg usb_daddr_reg 0x80)
      (usbd_ep_setup 0 usb_endpoint_attr_control max_packet_size u)

-- A completed transaction of endpoint `ep`.
unfoldable pub on_transfer : Config → ℕ → Usb → Usb
on_transfer cfg istr u =
    let ep = bit_and istr usb_istr_ep_id in
    let (v, m) = load word (usb_ep_reg ep) u.machine in
    let u' = record u { machine = m } in
    if bit_and istr usb_istr_dir == 0
    then usbd_control_in cfg (on_machine (usb_clr_ep_tx_ctr ep) u)
    else if bit_and v usb_ep_setup == 0
    then usbd_control_out cfg u'
    else usbd_control_setup cfg u'

-- `if (istr & bit) CLR_REG_BIT(USB_ISTR_REG, bit)`
unfoldable pub acknowledge : ℕ → ℕ → Machine → Machine
acknowledge istr bit m = if bit_and istr bit == 0 then m else clr_reg_bit usb_istr_reg bit m

unfoldable pub do_usb_poll : Config → Usb → Usb
do_usb_poll cfg u =
    let (v, m) = load word usb_istr_reg u.machine in
    let istr = u16 v in
    let u = record u { machine = m } in
    let u' = if bit_and istr usb_istr_ctr == 0 then u else on_transfer cfg istr u in
    if bit_and istr usb_istr_reset == 0
    then on_machine
        (λ m. keep_bits usb_cntr_reg (not32 usb_cntr_sofm) (
          acknowledge istr usb_istr_sof
            (acknowledge istr usb_istr_wkup (acknowledge istr usb_istr_susp m))))
        u'
    else on_reset u
