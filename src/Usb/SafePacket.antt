-- ===== src/Usb/SafePacket.antt =====
-- The accesses of the packets and the stalls of src/usb.cpp, the packet memory included.
use ln_dso_stm32_dfu_bootloa.Common.{
  ℕ, zero, suc, ◌+◌, ◌*◌, ◌/◌, ◌%◌, ◌≤◌, ◌<◌, Bool, true, false, List, u32, leb, ◌==◌, arith,
}
use ln_dso_stm32_dfu_bootloa.Machine.{Machine, byte, half, word, load}
use ln_dso_stm32_dfu_bootloa.Config.{Config}
use ln_dso_stm32_dfu_bootloa.Flash.{flash_ar}
use ln_dso_stm32_dfu_bootloa.Usb.Regs.{
  usb_ep_tx_stat, tx_stat, valid, usb_pma_base, usb_ep_reg, tx_addr, tx_count, rx_addr, rx_count,
  get_reg, clr_reg_bit_msk_and_set, usb_clr_ep_tx_dtog, usb_clr_ep_rx_dtog, usb_clr_ep_rx_ctr,
  entry_reg, get_entry, get_ep_buff,
}
use ln_dso_stm32_dfu_bootloa.Usb.Packet.{
  copy_to_pm, st_usbfs_copy_to_pm, copy_from_pm, st_usbfs_copy_from_pm, has_stat,
  usbd_ep_write_packet, rx_length, read_packet, ep_stall_set, ep_stall_get,
}
use ln_dso_stm32_dfu_bootloa.Usb.Safe.{
  IsSafeSoFar, load-Safe, store-Safe, if-Safe, if_pair-Safe, set_ep_rx_stat-Safe,
  set_ep_tx_stat-Safe, change-Safe, entry_reg-Safe, entry_reg_address, set_entry-Safe,
  get_entry-Safe, get_ep_buff-Safe,
}

module _ (cfg : Config) where
  tx_buffer_address :
      (m : Machine) → IsSafeSoFar cfg m → (get_ep_buff tx_addr 0 m).0 ≤ usb_pma_base + 1024
  unfolding get_ep_buff get_entry get_reg load
  tx_buffer_address m h =
      let r = entry_reg-Safe cfg tx_addr 0 m h in
      rw (entry_reg_address cfg tx_addr 0 m h)
        (let t = r.layout.tx (entry_reg tx_addr 0 m).1.log in omega (arith, t))

  copy_to_pm-Safe :
      (n pm : ℕ) (buf : List ℕ) (off : ℕ) (m : Machine)
      → 0x40000000 ≤ pm
      → pm + 4 * n < flash_ar
      → IsSafeSoFar cfg m
      → IsSafeSoFar cfg (copy_to_pm n pm buf off m)
  unfolding copy_to_pm
  copy_to_pm-Safe zero pm buf off m lo hi h = h
  copy_to_pm-Safe (suc n) pm buf off m lo hi h =
      copy_to_pm-Safe n (u32 (pm + 4)) buf (off + 2) _ (omega arith) (omega arith)
        (store-Safe cfg pm _ m lo (omega arith) h)

  has_stat-Safe :
      (addr mask bits : ℕ) (m : Machine)
      → IsSafeSoFar cfg m
      → IsSafeSoFar cfg (has_stat addr mask bits m).1
  unfolding has_stat
  has_stat-Safe addr mask bits m h = load-Safe cfg word (usb_ep_reg addr) m h

  tx_buffer_low : (m : Machine) → usb_pma_base ≤ (get_ep_buff tx_addr 0 m).0
  unfolding get_ep_buff
  tx_buffer_low m = omega arith

  -- A packet of the control endpoint.
  pub write_packet-Safe :
      (buf : List ℕ) (off len : ℕ) (m : Machine)
      → len ≤ 64
      → IsSafeSoFar cfg m
      → IsSafeSoFar cfg (usbd_ep_write_packet 0 buf off len m).1
  unfolding usbd_ep_write_packet st_usbfs_copy_to_pm
  write_packet-Safe buf off len m small h =
      let asked = has_stat-Safe 0 _ _ m h in
      if_pair-Safe cfg _ _ _ asked (
        set_ep_tx_stat-Safe cfg 0 _ _ (omega arith) (
          set_entry-Safe cfg tx_count 0 len _ (omega arith) (
            copy_to_pm-Safe ((len + 1) / 2) _ buf off _
              (omega (arith, tx_buffer_low (has_stat 0 usb_ep_tx_stat (tx_stat valid) m).1))
              (omega (arith, tx_buffer_address _ asked)) (get_ep_buff-Safe cfg tx_addr 0 _ asked))))

  copy_from_pm-Safe :
      (n : ℕ) (odd : Bool) (pm : ℕ) (m : Machine)
      → IsSafeSoFar cfg m
      → IsSafeSoFar cfg (copy_from_pm n odd pm m).1
  unfolding copy_from_pm
  copy_from_pm-Safe zero true pm m h = load-Safe cfg byte pm m h
  copy_from_pm-Safe zero false pm m h = h
  copy_from_pm-Safe (suc n) odd pm m h =
      copy_from_pm-Safe n odd (u32 (pm + 4)) _ (load-Safe cfg half pm m h)

  rx_length-Safe :
      (addr len : ℕ) (m : Machine) → IsSafeSoFar cfg m → IsSafeSoFar cfg (rx_length addr len m).1
  unfolding rx_length
  rx_length-Safe addr len m h =
      let counted = get_entry-Safe cfg rx_count addr m h in
      if_pair-Safe cfg _ _ _ (get_entry-Safe cfg rx_count addr _ counted) counted

  pub read_packet-Safe :
      (addr len force : ℕ) (m : Machine)
      → addr < 256
      → IsSafeSoFar cfg m
      → IsSafeSoFar cfg (read_packet addr len force m).1
  unfolding read_packet st_usbfs_copy_from_pm usb_clr_ep_rx_ctr clr_reg_bit_msk_and_set
  read_packet-Safe addr len force m lt h =
      let asked = has_stat-Safe addr _ _ m h in
      let copied =
        copy_from_pm-Safe _ _ _ _
          (get_ep_buff-Safe cfg rx_addr addr _ (rx_length-Safe addr len _ asked)) in
      let cleared = change-Safe cfg addr _ _ lt copied in
      if_pair-Safe cfg _ _ _ asked
        (if-Safe cfg _ _ _ (set_ep_rx_stat-Safe cfg addr _ _ lt cleared) cleared)

  pub ep_stall_set-Safe :
      (addr : ℕ) (on : Bool) (m : Machine)
      → addr < 256
      → IsSafeSoFar cfg m
      → IsSafeSoFar cfg (ep_stall_set addr on m)
  unfolding ep_stall_set usb_clr_ep_tx_dtog usb_clr_ep_rx_dtog
  ep_stall_set-Safe addr on m lt h =
      let zero_set = if-Safe cfg (addr == 0) _ _ (set_ep_tx_stat-Safe cfg addr _ m lt h) h in
      let in_set = set_ep_tx_stat-Safe cfg (addr % 128) _ _ (omega arith) zero_set in
      if-Safe cfg (leb 128 addr) _ _
        (if-Safe cfg on _ _ in_set (change-Safe cfg (addr % 128) _ _ (omega arith) in_set))
        (set_ep_rx_stat-Safe cfg addr _ _ lt
          (if-Safe cfg on _ _ zero_set (change-Safe cfg addr _ _ lt zero_set)))

  pub ep_stall_get-Safe :
      (addr : ℕ) (m : Machine) → IsSafeSoFar cfg m → IsSafeSoFar cfg (ep_stall_get addr m).1
  unfolding ep_stall_get
  ep_stall_get-Safe addr m h =
      if_pair-Safe cfg _ _ _ (has_stat-Safe (addr % 128) _ _ m h) (has_stat-Safe addr _ _ m h)
