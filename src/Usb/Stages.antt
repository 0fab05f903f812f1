-- ===== src/Usb/Stages.antt =====
-- The accesses of the stages of a control transfer in src/usb.cpp.
use ln_dso_stm32_dfu_bootloa.Common.{
  ℕ, ◌+◌, ◌<◌, false, ◌&&◌, ltb, leb, ◌==◌, arith, Bool-cases, inl, inr,
}
use ln_dso_stm32_dfu_bootloa.Config.{Config, IsSound}
use ln_dso_stm32_dfu_bootloa.Dfu.Types.{ReturnCode, notsupp, handled, next_callback}
use ln_dso_stm32_dfu_bootloa.Dfu.{dfu_transfer_size}
use ln_dso_stm32_dfu_bootloa.Dfu.Guard.{target, usbdfu_getstatus_complete-AllSafe}
use ln_dso_stm32_dfu_bootloa.Dfu.Invariant.{IsValid}
use ln_dso_stm32_dfu_bootloa.Dfu.Answer.{getstatus_complete-answer}
use ln_dso_stm32_dfu_bootloa.Usb.Regs.{usb_daddr_reg}
use ln_dso_stm32_dfu_bootloa.Usb.State.{
  Usb, Fsm, idle, data_in, last_data_in, status_in, data_out, last_data_out, status_out,
  max_packet_size,
}
use ln_dso_stm32_dfu_bootloa.Usb.Packet.{usbd_ep_read_packet, usbd_ep_nak_set}
use ln_dso_stm32_dfu_bootloa.Usb.Standard.{usb_req_set_address}
use ln_dso_stm32_dfu_bootloa.Usb.Control.{
  usb_control_recv_chunk, answer_read, usb_control_setup_read, usb_control_setup_write,
  usbd_control_setup, run_callback, finish_write, control_out, latch_address, control_in,
}
use ln_dso_stm32_dfu_bootloa.Usb.Safe.{set_reg-Safe}
use ln_dso_stm32_dfu_bootloa.Usb.Keeps.{
  Keeps, if-Keeps, stall-Keeps, nak-Keeps, read-Keeps, send-Keeps, send_chunk-Keeps,
  recv_chunk-Keeps, dispatch-Gives,
}

-- The bytes of the pending command stay below the top of the address space.
abbrev pub TargetFits : Usb → Type 0
TargetFits u = target u.dfu + dfu_transfer_size < 0x100000000

module _ (cfg : Config) (s : IsSound cfg) where
  answer_sent-Keeps : (w : ℕ) (u : Usb) → Keeps cfg u → Keeps cfg (answer_read w handled u)
  unfolding answer_read
  answer_sent-Keeps w u h = elim (Bool-cases (w == 0)) [
    | inl status ↦
        rw status
          (record { kept = (send-Keeps cfg 0 0 _ (omega arith) (record { kept = h.kept })).kept })
    | inr chunk ↦ rw chunk (send_chunk-Keeps cfg _ (record { kept = h.kept }))
  ]

  answer_read-Keeps :
      (w : ℕ) (code : ReturnCode) (u : Usb) → Keeps cfg u → Keeps cfg (answer_read w code u)
  answer_read-Keeps w notsupp u h = unfold answer_read in stall-Keeps cfg u h
  answer_read-Keeps w handled u h = answer_sent-Keeps w u h
  answer_read-Keeps w next_callback u h = unfold answer_read in answer_sent-Keeps w u h

  setup_read-Keeps : (u : Usb) → Keeps cfg u → Keeps cfg (usb_control_setup_read cfg u)
  unfolding usb_control_setup_read
  setup_read-Keeps u h =
      let start : Usb = record u { dataoff = 0 } in
      answer_read-Keeps u.req.w_length _ _
        (record { kept = (dispatch-Gives cfg start (record { kept = h.kept })).kept })

  setup_write-Keeps : (u : Usb) → Keeps cfg u → Keeps cfg (usb_control_setup_write u)
  unfolding usb_control_setup_write
  setup_write-Keeps u h = elim (Bool-cases (ltb dfu_transfer_size u.req.w_length)) [
    | inl large ↦ rw large (stall-Keeps cfg u h)
    | inr fits ↦ rw fits (nak-Keeps cfg 0 _ (record { kept = h.kept }))
  ]

  pub setup-Keeps : (u : Usb) → Keeps cfg u → Keeps cfg (usbd_control_setup cfg u)
  unfolding usbd_control_setup
  setup-Keeps u h = if-Keeps cfg _ _ _ (stall-Keeps cfg _ (record { kept = read.kept })) (
      if-Keeps cfg _ _ _ (setup_read-Keeps _ (record { kept = read.kept }))
        (setup_write-Keeps _ (record { kept = read.kept })))
    where
      busy : Usb
      busy = usbd_ep_nak_set 0 1 (record u { complete_cb = false })

      read : Keeps cfg (usbd_ep_read_packet 0 8 busy).1
      read = read-Keeps cfg 8 busy (nak-Keeps cfg 1 _ (record { kept = h.kept }))

  run_callback-Keeps :
      (u : Usb) → IsValid u.dfu → TargetFits u → Keeps cfg u → Keeps cfg (run_callback cfg u)
  unfolding run_callback
  run_callback-Keeps u v fits h =
      if-Keeps cfg u.complete_cb _ _
        (record {
          kept = record {
            safe =
                usbdfu_getstatus_complete-AllSafe cfg s u.dfu u.machine (λ e. v.pending (inr e))
                  v.len_fits fits h.kept.safe;
            layout = rw (getstatus_complete-answer cfg u.dfu u.machine) (h.kept.layout);
          };
        })
        h

  finish_write-Keeps : (code : ReturnCode) (u : Usb) → Keeps cfg u → Keeps cfg (finish_write code u)
  unfolding finish_write
  finish_write-Keeps notsupp u h = stall-Keeps cfg u h
  finish_write-Keeps handled u h = record { kept = (send-Keeps cfg 0 0 u (omega arith) h).kept }
  finish_write-Keeps next_callback u h = record {
    kept = (send-Keeps cfg 0 0 u (omega arith) h).kept;
  }

  pub control_out-Keeps :
      (fsm : Fsm) (u : Usb)
      → IsValid u.dfu
      → TargetFits u
      → Keeps cfg u
      → Keeps cfg (control_out cfg fsm u)
  unfolding control_out
  control_out-Keeps data_out u v fits h =
      let received = recv_chunk-Keeps cfg u h in
      let r = usb_control_recv_chunk u in
      if-Keeps cfg (r.0 && leb r.1.req.w_length (r.1.datasize + max_packet_size))
        (record (r.1) { fsm = last_data_out }) _ (record { kept = received.kept }) received
  control_out-Keeps last_data_out u v fits h =
      let received = recv_chunk-Keeps cfg u h in
      if-Keeps cfg _ _ _
        (finish_write-Keeps _ _ (record { kept = (dispatch-Gives cfg _ received).kept })) received
  control_out-Keeps status_out u v fits h =
      let done : Usb = record ((usbd_ep_read_packet 0 0 u).1) { fsm = idle } in
      record {
        kept =
            (run_callback-Keeps done (unfold usbd_ep_read_packet in v)
              (unfold usbd_ep_read_packet in fits)
              (record { kept = (read-Keeps cfg 0 u h).kept })).kept;
      }
  control_out-Keeps _ u v fits h = stall-Keeps cfg u h

  latch-Keeps : (u : Usb) → Keeps cfg u → Keeps cfg (latch_address u)
  unfolding latch_address
  latch-Keeps u h =
      if-Keeps cfg ((u.req.bm_request_type == 0) && (u.req.b_request == usb_req_set_address)) _ _
        (record {
          kept = set_reg-Safe cfg usb_daddr_reg _ u.machine (omega arith) (omega arith) h.kept;
        })
        h

  pub control_in-Keeps :
      (fsm : Fsm) (u : Usb)
      → IsValid u.dfu
      → TargetFits u
      → Keeps cfg u
      → Keeps cfg (control_in cfg fsm u)
  unfolding control_in
  control_in-Keeps data_in u v fits h = send_chunk-Keeps cfg u h
  control_in-Keeps last_data_in u v fits h = nak-Keeps cfg 0 _ (record { kept = h.kept })
  control_in-Keeps status_in u v fits h = record {
    kept = (latch-Keeps _ (run_callback-Keeps u v fits h)).kept;
  }
  control_in-Keeps _ u v fits h = stall-Keeps cfg u h
