-- ===== src/Usb/Invariant.antt =====
-- The invariant of the control endpoint of src/usb.cpp, through any sequence of polls.
use ln_dso_stm32_dfu_bootloa.Common.{
  ℕ, zero, suc, ◌+◌, ◌≤◌, ◌≡◌, refl, true, false, leb, arith, leb→le, Bool-cases, inl, inr, u16, ap,
  ◌∙◌, if◌then◌else◌,
}
use ln_dso_stm32_dfu_bootloa.Machine.{Machine, word, load}
use ln_dso_stm32_dfu_bootloa.Usb.Regs.{usb_istr_reg}
use ln_dso_stm32_dfu_bootloa.Config.{Config}
use ln_dso_stm32_dfu_bootloa.Dfu.Types.{SetupData, ReturnCode, notsupp, handled, next_callback}
use ln_dso_stm32_dfu_bootloa.Dfu.{dfu_transfer_size}
use ln_dso_stm32_dfu_bootloa.Dfu.Invariant.{IsValid, usbdfu_getstatus_complete-IsValid}
use ln_dso_stm32_dfu_bootloa.Usb.State.{
  Usb, Fsm, idle, data_in, last_data_in, status_in, data_out, last_data_out, status_out,
  max_packet_size,
}
use ln_dso_stm32_dfu_bootloa.Usb.Packet.{usbd_ep_read_packet, usbd_ep_nak_set}
use ln_dso_stm32_dfu_bootloa.Usb.Control.{
  send_packet, usb_control_recv_chunk, run_callback, finish_write, control_out, usbd_control_out,
  latch_address, control_in, usbd_control_in,
}
use ln_dso_stm32_dfu_bootloa.Usb.Poll.{
  setup_tx, setup_rx, usbd_ep_setup, on_reset, on_transfer, do_usb_poll,
}
use ln_dso_stm32_dfu_bootloa.Usb.Buffer.{dispatch-IsValid}
use ln_dso_stm32_dfu_bootloa.Usb.Receive.{
  UsbValid, IsAccepted, recv_chunk-IsValid, recv_chunk-IsAccepted, recv_chunk_refused, stage_at,
  more_size,
}
use ln_dso_stm32_dfu_bootloa.Usb.Valid.{
  stall-UsbValid, send_chunk-UsbValid, if-UsbValid, setup-UsbValid,
}

run_callback-IsValid : (cfg : Config) (u : Usb) → IsValid u.dfu → IsValid (run_callback cfg u).dfu
unfolding run_callback
run_callback-IsValid cfg u v = elim (Bool-cases u.complete_cb) [
  | inl set ↦ rw set (usbdfu_getstatus_complete-IsValid cfg u.dfu u.machine v)
  | inr null ↦ rw null v
]

run_callback_fsm : (cfg : Config) (u : Usb) → (run_callback cfg u).fsm ≡ u.fsm
unfolding run_callback
run_callback_fsm cfg u = elim (Bool-cases u.complete_cb) [
  | inl set ↦ rw set refl
  | inr null ↦ rw null refl
]

finish_write-UsbValid :
    (code : ReturnCode) (u : Usb) → IsValid u.dfu → UsbValid (finish_write code u)
unfolding finish_write send_packet
finish_write-UsbValid notsupp u v = stall-UsbValid u v
finish_write-UsbValid handled u v = record { dfu = v; stage = tt }
finish_write-UsbValid next_callback u v = record { dfu = v; stage = tt }

-- A refused packet has stalled the endpoint.
refused-UsbValid :
    (u : Usb)
    → IsValid u.dfu
    → (usb_control_recv_chunk u).0 ≡ false
    → UsbValid (usb_control_recv_chunk u).1
refused-UsbValid u v refused = record {
  dfu = recv_chunk-IsValid u v;
  stage = rw (recv_chunk_refused u refused) tt;
}

accepted-UsbValid :
    (u : Usb)
    → UsbValid u
    → u.fsm ≡ data_out
    → (usb_control_recv_chunk u).0 ≡ true
    → let u' = (usb_control_recv_chunk u).1 in
      UsbValid (
        if leb u'.req.w_length (u'.datasize + max_packet_size)
        then record u' { fsm = last_data_out }
        else u')
accepted-UsbValid u v e ok =
    elim (Bool-cases (leb u'.req.w_length (u'.datasize + max_packet_size))) [
      | inl last ↦ rw last (record {
        dfu = recv_chunk-IsValid u v.dfu;
        stage = (omega (arith, same, small), omega (arith, same, sized), leb→le _ _ last);
      })
      | inr more ↦ rw more (record {
        dfu = recv_chunk-IsValid u v.dfu;
        stage = rw (a.fsm ∙ e) (omega (arith, same, small), ground arith);
      })
    ]
  where
    u' : Usb
    u' = (usb_control_recv_chunk u).1

    a : IsAccepted u u'
    a = recv_chunk-IsAccepted u ok

    small : u.req.w_length ≤ dfu_transfer_size
    small = (stage_at u data_out v e).0

    same : u'.req.w_length ≡ u.req.w_length
    same = ap (λ (r : SetupData). r.w_length) a.req

    sized : (u'.datasize ≡ u.datasize + max_packet_size) × (u'.datasize ≤ u.req.w_length)
    sized =
        let m = more_size u v e in
        (omega (arith, a.datasize, m, small), omega (arith, a.datasize, m, small))

control_out-UsbValid :
    (cfg : Config) (s : Fsm) (u : Usb) → UsbValid u → u.fsm ≡ s → UsbValid (control_out cfg s u)
unfolding control_out
control_out-UsbValid cfg data_out u v e = elim (Bool-cases (usb_control_recv_chunk u).0) [
  | inl ok ↦ rw ok (accepted-UsbValid u v e ok)
  | inr refused ↦ rw refused (refused-UsbValid u v.dfu refused)
]
control_out-UsbValid cfg last_data_out u v e = elim (Bool-cases (usb_control_recv_chunk u).0) [
  | inl ok ↦ rw ok (finish_write-UsbValid _ _ (dispatch-IsValid cfg _ (recv_chunk-IsValid u v.dfu)))
  | inr refused ↦ rw refused (refused-UsbValid u v.dfu refused)
]
control_out-UsbValid cfg status_out u v e =
    let done : Usb = record ((usbd_ep_read_packet 0 0 u).1) { fsm = idle } in
    record {
      dfu = run_callback-IsValid cfg done (unfold usbd_ep_read_packet in v.dfu);
      stage = rw (run_callback_fsm cfg done) tt;
    }
control_out-UsbValid cfg _ u v e = stall-UsbValid u v.dfu

control_in-UsbValid :
    (cfg : Config) (s : Fsm) (u : Usb) → UsbValid u → UsbValid (control_in cfg s u)
unfolding control_in usbd_ep_nak_set latch_address
control_in-UsbValid cfg data_in u v = send_chunk-UsbValid u v.dfu
control_in-UsbValid cfg last_data_in u v = record { dfu = v.dfu; stage = tt }
control_in-UsbValid cfg status_in u v =
    let acknowledged : IsValid (run_callback cfg u).dfu = run_callback-IsValid cfg u v.dfu in
    record { dfu = unfold latch_address in ground (arith, acknowledged); stage = tt }
control_in-UsbValid cfg _ u v = stall-UsbValid u v.dfu

on_transfer-UsbValid :
    (cfg : Config) (istr : ℕ) (u : Usb) → UsbValid u → UsbValid (on_transfer cfg istr u)
unfolding on_transfer usbd_control_in usbd_control_out
on_transfer-UsbValid cfg istr u v =
    if-UsbValid _ _ _ (control_in-UsbValid cfg u.fsm _ (record { dfu = v.dfu; stage = v.stage })) (
      if-UsbValid _ _ _
        (control_out-UsbValid cfg u.fsm _ (record { dfu = v.dfu; stage = v.stage }) refl)
        (setup-UsbValid cfg _ v.dfu))

on_reset-UsbValid : (u : Usb) → UsbValid u → UsbValid (on_reset u)
unfolding on_reset usbd_ep_setup setup_tx setup_rx
on_reset-UsbValid u v = record { dfu = v.dfu; stage = v.stage }

pub machine-UsbValid : (m : Machine) (u : Usb) → UsbValid u → UsbValid (record u { machine = m })
machine-UsbValid m u v = record { dfu = v.dfu; stage = v.stage }

pub poll-UsbValid : (cfg : Config) (u : Usb) → UsbValid u → UsbValid (do_usb_poll cfg u)
unfolding do_usb_poll
poll-UsbValid cfg u v =
    if-UsbValid _ _ _
      (machine-UsbValid _ _ (if-UsbValid _ _ _ start (on_transfer-UsbValid cfg istr loaded start)))
      (on_reset-UsbValid loaded start)
  where
    istr : ℕ
    istr = u16 (load word usb_istr_reg u.machine).0

    loaded : Usb
    loaded = record u { machine = (load word usb_istr_reg u.machine).1 }

    start : UsbValid loaded
    start = machine-UsbValid _ u v

-- `n` calls of `do_usb_poll`.
unfoldable pub polls : ℕ → Config → Usb → Usb
polls zero cfg u = u
polls (suc n) cfg u = polls n cfg (do_usb_poll cfg u)

-- Whatever the peripheral answers, any number of polls keeps the invariant of the DFU globals, and
-- in the data stage of a write keeps wLength within the buffer and `datasize` within wLength.
pub polls-UsbValid : (cfg : Config) (n : ℕ) (u : Usb) → UsbValid u → UsbValid (polls n cfg u)
unfolding polls
polls-UsbValid cfg zero u v = v
polls-UsbValid cfg (suc n) u v = polls-UsbValid cfg n (do_usb_poll cfg u) (poll-UsbValid cfg u v)
