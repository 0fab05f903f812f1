-- ===== src/Usb/Boundary.antt =====
-- The boot loader's flash under the whole of src/usb.cpp, src/dfu.cpp and src/flash.h: what a host
-- can reach through `do_usb_poll`.
use ln_dso_stm32_dfu_bootloa.Common.{
  not32, ℕ, zero, suc, ◌<◌, ◌==◌, arith, u16, bit_and, bit_and_le, if◌then◌else◌,
}
use ln_dso_stm32_dfu_bootloa.Machine.{Machine, word, load, keep_bits}
use ln_dso_stm32_dfu_bootloa.Config.{Config, IsSound}
use ln_dso_stm32_dfu_bootloa.Flash.Safe.{AllSafe}
use ln_dso_stm32_dfu_bootloa.Dfu.Invariant.{IsValid}
use ln_dso_stm32_dfu_bootloa.Usb.Regs.{
  usb_daddr_reg, usb_istr_reg, usb_cntr_reg, usb_ep_reg, usb_ep_setup, clr_reg_bit,
  clr_reg_bit_msk_and_set, usb_clr_ep_tx_ctr, usb_clr_ep_tx_dtog, usb_clr_ep_rx_dtog, tx_addr,
  rx_addr, rx_count, usb_set_ep_addr, usb_set_ep_type,
}
use ln_dso_stm32_dfu_bootloa.Usb.State.{on_machine, Usb}
use ln_dso_stm32_dfu_bootloa.Usb.Control.{usbd_control_out, usbd_control_in}
use ln_dso_stm32_dfu_bootloa.Usb.Poll.{
  setup_tx, setup_rx, usbd_ep_setup, set_ep_rx_bufsize, on_reset, on_transfer, acknowledge,
  do_usb_poll, usb_istr_dir, usb_istr_ep_id, usb_istr_ctr, usb_istr_reset, usb_istr_sof,
  usb_istr_wkup, usb_istr_susp, usb_cntr_sofm,
}
use ln_dso_stm32_dfu_bootloa.Usb.Receive.{UsbValid}
use ln_dso_stm32_dfu_bootloa.Usb.Invariant.{poll-UsbValid, polls}
use ln_dso_stm32_dfu_bootloa.Usb.Safe.{
  Layout, IsSafeSoFar, load-Safe, store-Safe, set_reg-Safe, if-Safe, set_ep_rx_stat-Safe,
  set_ep_tx_stat-Safe, change-Safe, set_entry-Safe,
}
use ln_dso_stm32_dfu_bootloa.Usb.Keeps.{Keeps, if-Keeps}
use ln_dso_stm32_dfu_bootloa.Usb.Stages.{
  TargetFits, setup-Keeps, control_out-Keeps, control_in-Keeps,
}

module _ (cfg : Config) (s : IsSound cfg) where
  transfer-Keeps :
      (istr : ℕ) (u : Usb)
      → IsValid u.dfu
      → TargetFits u
      → Keeps cfg u
      → Keeps cfg (on_transfer cfg istr u)
  unfolding on_transfer usbd_control_in usbd_control_out usb_clr_ep_tx_ctr clr_reg_bit_msk_and_set
      load
  transfer-Keeps istr u v fits h =
      if-Keeps cfg (bit_and istr usb_istr_dir == 0) _ _
        (control_in-Keeps cfg s u.fsm _ v fits
          (record { kept = change-Safe cfg ep _ _ small h.kept }))
        (if-Keeps cfg (bit_and (load word (usb_ep_reg ep) u.machine).0 usb_ep_setup == 0) _ _
          (control_out-Keeps cfg s u.fsm _ v fits loaded) (setup-Keeps cfg s _ loaded))
    where
      ep : ℕ
      ep = bit_and istr usb_istr_ep_id

      small : ep < 256
      small = omega (arith, bit_and_le istr usb_istr_ep_id)

      loaded : Keeps cfg (record u { machine = (load word (usb_ep_reg ep) u.machine).1 })
      loaded = record { kept = load-Safe cfg word (usb_ep_reg ep) u.machine h.kept }

  clear_istr-Safe :
      (bit : ℕ) (m : Machine) → IsSafeSoFar cfg m → IsSafeSoFar cfg (clr_reg_bit usb_istr_reg bit m)
  unfolding clr_reg_bit
  clear_istr-Safe bit m h = set_reg-Safe cfg usb_istr_reg _ m (omega arith) (omega arith) h

  acknowledge-Safe :
      (istr bit : ℕ) (m : Machine) → IsSafeSoFar cfg m → IsSafeSoFar cfg (acknowledge istr bit m)
  unfolding acknowledge
  acknowledge-Safe istr bit m h = if-Safe cfg _ _ _ h (clear_istr-Safe bit m h)

  reset-Keeps : (u : Usb) → Keeps cfg u → Keeps cfg (on_reset u)
  unfolding on_reset usbd_ep_setup setup_tx setup_rx set_ep_rx_bufsize usb_set_ep_type
      usb_set_ep_addr usb_clr_ep_tx_dtog usb_clr_ep_rx_dtog
  reset-Keeps u h =
      let zero_lt : 0 < 256 = omega arith in
      let cleared = clear_istr-Safe _ u.machine h.kept in
      let typed = change-Safe cfg 0 _ _ zero_lt (change-Safe cfg 0 _ _ zero_lt cleared) in
      let tx =
        set_ep_tx_stat-Safe cfg 0 _ _ zero_lt
          (change-Safe cfg 0 _ _ zero_lt (set_entry-Safe cfg tx_addr 0 _ _ zero_lt typed)) in
      let rx = set_ep_rx_stat-Safe cfg 0 _ _ zero_lt (
        change-Safe cfg 0 _ _ zero_lt (
          set_entry-Safe cfg rx_count 0 _ _ zero_lt
            (set_entry-Safe cfg rx_addr 0 _ _ zero_lt tx))) in
      record { kept = set_reg-Safe cfg usb_daddr_reg _ _ (omega arith) (omega arith) rx }

  keep_cntr-Safe :
      (mask : ℕ) (m : Machine) → IsSafeSoFar cfg m → IsSafeSoFar cfg (keep_bits usb_cntr_reg mask m)
  unfolding keep_bits
  keep_cntr-Safe mask m h =
      store-Safe cfg usb_cntr_reg _ _ (omega arith) (omega arith)
        (load-Safe cfg word usb_cntr_reg m h)

  pub poll-Keeps :
      (u : Usb) → UsbValid u → TargetFits u → Keeps cfg u → Keeps cfg (do_usb_poll cfg u)
  unfolding do_usb_poll
  poll-Keeps u v fits h =
      if-Keeps cfg (bit_and istr usb_istr_reset == 0)
        (on_machine
          (λ m. keep_bits usb_cntr_reg (not32 usb_cntr_sofm) (
            acknowledge istr usb_istr_sof
              (acknowledge istr usb_istr_wkup (acknowledge istr usb_istr_susp m))))
          after)
        _
        (record {
          kept = keep_cntr-Safe (not32 usb_cntr_sofm) _ (
              acknowledge-Safe istr usb_istr_sof _ (
                acknowledge-Safe istr usb_istr_wkup _
                  (acknowledge-Safe istr usb_istr_susp _ transferred.kept)));
        })
        (reset-Keeps loaded start)
    where
      istr : ℕ
      istr = u16 (load word usb_istr_reg u.machine).0

      loaded : Usb
      loaded = record u { machine = (load word usb_istr_reg u.machine).1 }

      start : Keeps cfg loaded
      start = record { kept = load-Safe cfg word usb_istr_reg u.machine h.kept }

      after : Usb
      after = if bit_and istr usb_istr_ctr == 0 then loaded else on_transfer cfg istr loaded

      transferred : Keeps cfg after
      transferred =
          if-Keeps cfg (bit_and istr usb_istr_ctr == 0) _ _ start
            (transfer-Keeps istr loaded v.dfu fits start)

  polls-Keeps :
      (n : ℕ) (u : Usb)
      → UsbValid u
      → ((k : ℕ) → k < n → TargetFits (polls k cfg u))
      → Keeps cfg u
      → Keeps cfg (polls n cfg u)
  unfolding polls
  polls-Keeps zero u v fits k = k
  polls-Keeps (suc n) u v fits k =
      polls-Keeps n (do_usb_poll cfg u) (poll-UsbValid cfg u v) (λ i lt. fits (suc i) (omega arith))
        (poll-Keeps u v (fits 0 (omega arith)) k)

  -- In a sound configuration, from a valid state with safe accesses so far, on a peripheral that
  -- keeps its buffer table at offset 0 and the TX buffer of the control endpoint in the packet
  -- memory: whatever the host sends, any number of polls stores half-words only in the
  -- application's flash and in the ports' registers and erases only the application's pages, if at
  -- the start of each poll the bytes of the pending command stay below the top of the address space.
  pub polls-AllSafe :
      (n : ℕ) (u : Usb)
      → UsbValid u
      → Layout u.machine.answer
      → ((k : ℕ) → k < n → TargetFits (polls k cfg u))
      → AllSafe cfg u.machine
      → AllSafe cfg (polls n cfg u).machine
  polls-AllSafe n u v l fits h =
      (polls-Keeps n u v fits (record { kept = record { safe = h; layout = l } })).kept.safe
