-- ===== src/Usb/Packet.antt =====
-- Packets between the packet memory and the buffers, NAK and STALL: the endpoint functions of
-- src/usb.cpp.
use ln_dso_stm32_dfu_bootloa.Common.{
  ℕ, zero, suc, ◌+◌, ◌/◌, ◌%◌, Bool, true, List, [], ◌∷◌, set, get_or, u32, half_at, bit_and, ltb,
  leb, ◌==◌, if◌then◌else◌,
}
use ln_dso_stm32_dfu_bootloa.Machine.{Machine, byte, half, word, load, store}
use ln_dso_stm32_dfu_bootloa.Usb.Regs.{
  stall, nak, valid, rx_stat, tx_stat, usb_ep_reg, usb_ep_rx_stat, usb_ep_tx_stat,
  usb_set_ep_rx_stat, usb_set_ep_tx_stat, usb_clr_ep_tx_dtog, usb_clr_ep_rx_dtog, usb_clr_ep_rx_ctr,
  tx_addr, tx_count, rx_addr, rx_count, get_entry, set_entry, get_ep_buff,
}
use ln_dso_stm32_dfu_bootloa.Usb.State.{Usb, idle}

-- The loop of `st_usbfs_copy_to_pm`: `n` half-words are left, from byte `off` of the buffer on.
unfoldable pub copy_to_pm : ℕ → ℕ → List ℕ → ℕ → Machine → Machine
copy_to_pm zero pm buf off m = m
copy_to_pm (suc n) pm buf off m =
    copy_to_pm n (u32 (pm + 4)) buf (off + 2) (store word pm (half_at buf off) m)

unfoldable pub st_usbfs_copy_to_pm : ℕ → List ℕ → ℕ → ℕ → Machine → Machine
st_usbfs_copy_to_pm pm buf off len m = copy_to_pm ((len + 1) / 2) pm buf off m

-- The bytes that `st_usbfs_copy_from_pm` stores: `n` whole half-words, and one byte more if the
-- length is odd.
unfoldable pub copy_from_pm : ℕ → Bool → ℕ → Machine → List ℕ × Machine
copy_from_pm zero odd pm m = if odd then (let (v, m') = load byte pm m in (v ∷ [], m')) else ([], m)
copy_from_pm (suc n) odd pm m =
    let (v, m) = load half pm m in
    let (rest, m) = copy_from_pm n odd (u32 (pm + 4)) m in (v % 256 ∷ v / 256 ∷ rest, m)

unfoldable pub st_usbfs_copy_from_pm : ℕ → ℕ → Machine → List ℕ × Machine
st_usbfs_copy_from_pm pm len m = copy_from_pm (len / 2) (len % 2 == 1) pm m

unfoldable pub has_stat : ℕ → ℕ → ℕ → Machine → Bool × Machine
has_stat addr mask stat_bits m =
    let (v, m) = load word (usb_ep_reg addr) m in (bit_and v mask == stat_bits, m)

-- The packet lies at byte `off` of the control buffer. The callers ignore the length returned.
unfoldable pub usbd_ep_write_packet : ℕ → List ℕ → ℕ → ℕ → Machine → ℕ × Machine
usbd_ep_write_packet addr buf off len m =
    let addr = addr % 128 in
    let (busy, m) = has_stat addr usb_ep_tx_stat (tx_stat valid) m in
    let (pm, m1) = get_ep_buff tx_addr addr m in
    let m2 = st_usbfs_copy_to_pm pm buf off len m1 in
    let m3 = set_entry tx_count addr len m2 in
    if busy then (0, m) else (len, usb_set_ep_tx_stat addr valid m3)

-- `MIN(USB_GET_EP_RX_COUNT(addr) & 0x3ff, len)`: the macro reads the count again if it is the
-- smaller one.
unfoldable pub rx_length : ℕ → ℕ → Machine → ℕ × Machine
rx_length addr len m =
    let (count, m) = get_entry rx_count addr m in
    let (again, m') = get_entry rx_count addr m in
    if ltb (bit_and count 0x3ff) len then (bit_and again 0x3ff, m') else (len, m)

-- The bytes read; `nak` is `usb_force_nak[addr]`.
unfoldable pub read_packet : ℕ → ℕ → ℕ → Machine → List ℕ × Machine
read_packet addr len force m =
    let (busy, m) = has_stat addr usb_ep_rx_stat (rx_stat valid) m in
    let (len, m1) = rx_length addr len m in
    let (pm, m1) = get_ep_buff rx_addr addr m1 in
    let (bytes, m1) = st_usbfs_copy_from_pm pm len m1 in
    let m1 = usb_clr_ep_rx_ctr addr m1 in
    let m1 = if force == 0 then usb_set_ep_rx_stat addr valid m1 else m1 in
    if busy then ([], m) else (bytes, m1)

unfoldable pub usbd_ep_read_packet : ℕ → ℕ → Usb → List ℕ × Usb
usbd_ep_read_packet addr len u =
    let (bytes, m) = read_packet addr len (get_or u.force_nak addr 0) u.machine in
    (bytes, record u { machine = m })

unfoldable pub usbd_ep_nak_set : ℕ → ℕ → Usb → Usb
usbd_ep_nak_set addr force u = if leb 128 addr then u else record u {
  force_nak = set u.force_nak addr force;
  machine = usb_set_ep_rx_stat addr (if force == 0 then valid else nak) u.machine;
}

-- `on` is the argument `stall`.
unfoldable pub ep_stall_set : ℕ → Bool → Machine → Machine
ep_stall_set addr on m =
    let m = if addr == 0 then usb_set_ep_tx_stat addr (if on then stall else nak) m else m in
    if leb 128 addr
    then (let m = usb_set_ep_tx_stat (addr % 128) (if on then stall else nak) m in
        if on then m else usb_clr_ep_tx_dtog (addr % 128) m)
    else usb_set_ep_rx_stat addr (if on then stall else valid)
        (if on then m else usb_clr_ep_rx_dtog addr m)

unfoldable pub ep_stall_get : ℕ → Machine → Bool × Machine
ep_stall_get addr m =
    if leb 128 addr
    then has_stat (addr % 128) usb_ep_tx_stat (tx_stat stall) m
    else has_stat addr usb_ep_rx_stat (rx_stat stall) m

unfoldable pub stall_transaction : Usb → Usb
stall_transaction u = record u { fsm = idle; machine = ep_stall_set 0 true u.machine }
