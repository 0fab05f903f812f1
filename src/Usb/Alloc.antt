-- ===== src/Usb/Alloc.antt =====
-- The packet memory that src/usb.cpp gives to the control endpoint.
use ln_dso_stm32_dfu_bootloa.Common.{
  ℕ, ◌+◌, ◌-◌, ◌*◌, ◌/◌, ◌%◌, ◌<◌, ◌≡◌, refl, some, ltb, ◌==◌, if◌then◌else◌, holds_below_sound,
  ==→eq,
}
use ln_dso_stm32_dfu_bootloa.Machine.{Log, word, value, load, store}
use ln_dso_stm32_dfu_bootloa.Machine.Trace.{stored_word}
use ln_dso_stm32_dfu_bootloa.Usb.Regs.{
  usb_btable_reg, usb_daddr_reg, usb_pma_base, set_entry, entry_reg, get_reg, set_reg, clr_reg_bit,
  usb_set_ep_addr, usb_set_ep_type, usb_set_ep_tx_stat, usb_set_ep_rx_stat, usb_clr_ep_tx_dtog,
  usb_clr_ep_rx_dtog, tog_set_reg_bit_msk_and_set,
}
use ln_dso_stm32_dfu_bootloa.Usb.State.{Usb}
use ln_dso_stm32_dfu_bootloa.Usb.Poll.{
  rx_bufsize, set_ep_rx_bufsize, setup_tx, setup_rx, usbd_ep_setup, on_reset,
}

-- The bytes that the peripheral takes for a packet with an RX count register of value `v`: bits 10
-- to 14 count blocks of 2 bytes, or, less one, of 32 bytes where bit 15 is set.
abbrev pub capacity : ℕ → ℕ
capacity v = if v / 32768 % 2 == 1 then (v / 1024 % 32 + 1) * 32 else v / 1024 % 32 * 2

-- The capacity that results from a size.
abbrev pub capacity_of : ℕ → ℕ
capacity_of size =
    if ltb 62 size
    then if size % 32 == 0 then size + 32 else size / 32 * 32
    else if ltb 31 (size + size % 2)
    then (size + size % 2 - 31) * 32
    else 2 * (size + size % 2)

-- For a size below 1024, `_set_ep_rx_bufsize` gives: up to 62, with the size rounded up to an even
-- number, twice that number below 32 and `32 * (n - 31)` bytes for a number `n` from 32 on; above 62,
-- 32 bytes more than the size if it is a multiple of 32, and otherwise the size rounded down to one,
-- which is less than the size.
pub capacity-rx_bufsize : (size : ℕ) → size < 1024 → capacity (rx_bufsize size) ≡ capacity_of size
unfolding rx_bufsize
capacity-rx_bufsize size lt =
    ==→eq (capacity (rx_bufsize size)) (capacity_of size)
      (holds_below_sound (λ s. capacity (rx_bufsize s) == capacity_of s) 1024 size refl lt)

-- After a bus reset, with the buffer table at offset 0, the TX buffer of the control endpoint starts
-- at 0x40 and its RX buffer, of 96 bytes, at 0x80, the next allocation starts at 0xc0, and the address
-- is 0 and enabled.
pub on_reset_layout :
    (u : Usb)
    → ((log : Log) → value u.machine.answer log word usb_btable_reg ≡ 0)
    → let v = on_reset u in
      (stored_word v.machine.log usb_pma_base ≡ some 0x40)
      × (stored_word v.machine.log (usb_pma_base + 8) ≡ some 0x80)
      × (stored_word v.machine.log (usb_pma_base + 12) ≡ some 0x8800)
      × (v.pm_top ≡ 0xc0)
      × (stored_word v.machine.log usb_daddr_reg ≡ some 0x80)
unfolding on_reset usbd_ep_setup setup_tx setup_rx set_ep_rx_bufsize rx_bufsize set_entry entry_reg
    get_reg set_reg clr_reg_bit usb_set_ep_addr usb_set_ep_type usb_set_ep_tx_stat
    usb_set_ep_rx_stat usb_clr_ep_tx_dtog usb_clr_ep_rx_dtog tog_set_reg_bit_msk_and_set load store
on_reset_layout u h = simp h (refl, refl, refl, refl, refl)
