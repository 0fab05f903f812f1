-- ===== src/Tests/Registers.antt =====
-- The endpoint registers, the refused transfers and the abstract DFU mode of src/usb.cpp on concrete
-- devices.
use ln_dso_stm32_dfu_bootloa.Common.{
  ℕ, ◌≡◌, refl, inr, true, false, [], bit_and, bit_or, not16, ◌==◌, if◌then◌else◌,
}
use ln_dso_stm32_dfu_bootloa.Machine.{Machine, Settles, load, store}
use ln_dso_stm32_dfu_bootloa.Config.{stm32f103}
use ln_dso_stm32_dfu_bootloa.Dfu.Protocol.{Runs}
use ln_dso_stm32_dfu_bootloa.Usb.Regs.{
  usb_ep_tx_stat, usb_ep_rx_stat, usb_ep_rx_ctr, usb_ep_tx_ctr, usb_ep_rx_dtog, usb_ep_tx_dtog,
  usb_set_ep_rx_stat, usb_set_ep_tx_stat, usb_clr_ep_rx_ctr, usb_clr_ep_tx_ctr, usb_clr_ep_rx_dtog,
  usb_clr_ep_tx_dtog, get_entry, entry_reg, get_reg, get_ep_buff, set_reg,
  tog_set_reg_bit_msk_and_set, valid, rx_stat, tx_stat,
}
use ln_dso_stm32_dfu_bootloa.Usb.State.{Usb, idle}
use ln_dso_stm32_dfu_bootloa.Usb.Invariant.{polls}
use ln_dso_stm32_dfu_bootloa.Usb.Packet.{
  usbd_ep_read_packet, read_packet, rx_length, has_stat, st_usbfs_copy_from_pm, copy_from_pm,
  usbd_ep_nak_set, stall_transaction,
}
use ln_dso_stm32_dfu_bootloa.Usb.Control.{
  usb_control_setup_write, usb_control_recv_chunk, control_out, usbd_control_setup,
  usbd_control_out,
}
use ln_dso_stm32_dfu_bootloa.Usb.Register.{
  after_write, completed, in_done, out_done, both_done, ep_value, Writes,
}
use ln_dso_stm32_dfu_bootloa.Usb.Toggle.{set_stat_sets}
use ln_dso_stm32_dfu_bootloa.Usb.Clear.{clr_ctr_clears, clr_dtog_clears}
use ln_dso_stm32_dfu_bootloa.Usb.Phases.{phase_of}
use ln_dso_stm32_dfu_bootloa.Usb.Refine.{requests, polls-refine}
use ln_dso_stm32_dfu_bootloa.Usb.Errors.{IsRefused, setup_stalls, data_stage_stalls}
use ln_dso_stm32_dfu_bootloa.Tests.{zeros}
use ln_dso_stm32_dfu_bootloa.Tests.Usb.{asked, receiving}
use ln_dso_stm32_dfu_bootloa.Tests.Boundary.{acknowledged}

-- The completion of a pending block.
polls-refine_example :
    Runs
      (requests 2 stm32f103 acknowledged)
      (phase_of acknowledged)
      (phase_of (polls 2 stm32f103 acknowledged))
polls-refine_example = polls-refine stm32f103 2 acknowledged

-- The host wants to write 2000 bytes.
abbrev too_long : Machine
too_long = record {
  answer = λ log w a.
      if a == 0x4000600c
      then 8
      else if a == 0x40006008
      then 0x80
      else if a == 0x40006100
      then 0x0121
      else if a == 0x4000610c
      then 2000
      else 0;
  flash_ends = λ log. Settles.ready refl;
  log = [];
}

abbrev writing : Usb
writing = record asked { machine = too_long }

too_long_ends : (usbd_control_setup stm32f103 writing).fsm ≡ idle
unfolding usbd_control_setup usbd_ep_nak_set usbd_ep_read_packet read_packet rx_length has_stat
    get_entry entry_reg get_reg get_ep_buff st_usbfs_copy_from_pm copy_from_pm load
    usb_control_setup_write stall_transaction usb_set_ep_rx_stat tog_set_reg_bit_msk_and_set set_reg
    store
too_long_ends = refl

setup_stalls_example : IsRefused writing.dfu false (usbd_control_setup stm32f103 writing)
setup_stalls_example = setup_stalls stm32f103 writing too_long_ends

-- No byte of the last packet comes.
abbrev cut_short : Usb
cut_short = record receiving { machine = zeros; complete_cb = true }

cut_short_ends : (usbd_control_out stm32f103 cut_short).fsm ≡ idle
unfolding usbd_control_out control_out usb_control_recv_chunk usbd_ep_read_packet read_packet
    rx_length has_stat get_entry entry_reg get_reg get_ep_buff st_usbfs_copy_from_pm copy_from_pm
    load stall_transaction
cut_short_ends = refl

data_stage_stalls_example : IsRefused cut_short.dfu true (usbd_control_out stm32f103 cut_short)
data_stage_stalls_example = data_stage_stalls stm32f103 cut_short (inr refl) cut_short_ends

-- An IN transfer completes while the status is set.
set_stat_sets_example :
    let now = completed both_done (ep_value 0 too_long) in
    let after_in = completed in_done (ep_value 0 too_long) in
    let after_out = completed out_done (ep_value 0 too_long) in
    ((x : ℕ) × Writes 0 too_long (usb_set_ep_rx_stat 0 valid too_long) x
      × (after_write after_in x ≡ bit_or (bit_and after_in (not16 usb_ep_rx_stat)) (rx_stat valid))
      × (bit_and (after_write now x) 0x8080 ≡ bit_and now 0x8080))
    × ((y : ℕ) × Writes 0 too_long (usb_set_ep_tx_stat 0 valid too_long) y
        × (after_write after_out y
            ≡ bit_or (bit_and after_out (not16 usb_ep_tx_stat)) (tx_stat valid))
        × (bit_and (after_write now y) 0x8080 ≡ bit_and now 0x8080))
set_stat_sets_example = set_stat_sets 0 valid true both_done too_long

-- An OUT transfer completes while a flag is cleared.
clr_ctr_clears_example :
    let now = completed out_done (ep_value 0 too_long) in
    ((x : ℕ) × Writes 0 too_long (usb_clr_ep_rx_ctr 0 too_long) x
      × (after_write now x ≡ bit_and now (not16 usb_ep_rx_ctr)))
    × ((y : ℕ) × Writes 0 too_long (usb_clr_ep_tx_ctr 0 too_long) y
        × (after_write now y ≡ bit_and now (not16 usb_ep_tx_ctr)))
clr_ctr_clears_example = clr_ctr_clears 0 out_done too_long

-- A transfer of the other direction completes while DTOG is cleared.
clr_dtog_clears_example :
    let old = ep_value 0 too_long in
    let after_in = completed in_done old in
    let after_out = completed out_done old in
    ((x : ℕ) × Writes 0 too_long (usb_clr_ep_rx_dtog 0 too_long) x
      × (after_write after_in x
          ≡ bit_and after_in (bit_and (bit_or old 0x7f7f) (not16 usb_ep_rx_dtog))))
    × ((y : ℕ) × Writes 0 too_long (usb_clr_ep_tx_dtog 0 too_long) y
        × (after_write after_out y
            ≡ bit_and after_out (bit_and (bit_or old 0x7f7f) (not16 usb_ep_tx_dtog))))
clr_dtog_clears_example = clr_dtog_clears 0 true too_long
