-- ===== src/Usb/Refine.antt =====
-- The polls of src/usb.cpp as moves of the DFU class's state machine.
use ln_dso_stm32_dfu_bootloa.Common.{
  ℕ, zero, suc, ◌+◌, refl, false, ◌==◌, leb, ◌&&◌, Bool-cases, inl, inr, if◌then◌else◌, bit_and,
  bit_or, u16, Option, List, [], ◌∷◌,
}
use ln_dso_stm32_dfu_bootloa.Machine.{word, load}
use ln_dso_stm32_dfu_bootloa.Config.{Config}
use ln_dso_stm32_dfu_bootloa.Dfu.Types.{DfuReq, ReturnCode, notsupp, handled, next_callback}
use ln_dso_stm32_dfu_bootloa.Dfu.Protocol.{
  Phase, phase, Completion, not_pending, Polled, starts, drops, asks, rests, ends, ends_and_drops,
  Runs, complete-Completion,
}
use ln_dso_stm32_dfu_bootloa.Usb.Regs.{
  usb_istr_reg, usb_ep_reg, usb_ep_setup, usb_clr_ep_tx_ctr, usb_daddr_reg, set_reg,
}
use ln_dso_stm32_dfu_bootloa.Usb.State.{
  Usb, Fsm, idle, data_in, last_data_in, status_in, data_out, last_data_out, status_out,
  max_packet_size, on_machine,
}
use ln_dso_stm32_dfu_bootloa.Usb.Packet.{usbd_ep_read_packet, usbd_ep_nak_set}
use ln_dso_stm32_dfu_bootloa.Usb.Standard.{usb_req_set_address}
use ln_dso_stm32_dfu_bootloa.Usb.Control.{
  send_packet, usb_control_recv_chunk, usbd_control_setup, run_callback, finish_write, control_out,
  usbd_control_out, latch_address, control_in, usbd_control_in,
}
use ln_dso_stm32_dfu_bootloa.Usb.Poll.{
  usb_istr_ep_id, usb_istr_dir, usb_istr_ctr, usb_istr_reset, setup_tx, setup_rx, usbd_ep_setup,
  on_reset, on_transfer, do_usb_poll,
}
use ln_dso_stm32_dfu_bootloa.Usb.Invariant.{polls}
use ln_dso_stm32_dfu_bootloa.Usb.Phases.{
  phase_of, request_of, Asked, Follows, if-Follows, weaker-Follows, dispatch-Answers, stall-Follows,
  send_chunk-Follows, recv_chunk-Stays, stays, recv_chunk-Follows, setup_read-Follows,
  setup_write-Follows,
}

-- What the code asks for as a poll, in a new transfer and at the end of a data stage.
started :
    (p : Phase) (r : Option DfuReq) (q : Phase)
    → Asked (record p { pending = false }) r q
    → Polled p r q
started p r q (inl h) = starts h
started p r q (inr e) = drops e

continued : (p : Phase) (r : Option DfuReq) (q : Phase) → Asked p r q → Polled p r q
continued p r q (inl h) = asks h
continued p r q (inr e) = rests e

setup-Follows : (cfg : Config) (u : Usb) → Follows (Polled (phase_of u)) (usbd_control_setup cfg u)
unfolding usbd_control_setup usbd_ep_nak_set usbd_ep_read_packet
setup-Follows cfg u =
    weaker-Follows (Asked dropped) (Polled (phase_of u)) _ (started (phase_of u)) (
      if-Follows (Asked dropped) _ _ _ (stall-Follows _ _ (record { moves = inr refl })) (
        if-Follows (Asked dropped) _ _ _ (setup_read-Follows cfg _)
          (setup_write-Follows _ _ (record { moves = inr refl }))))
  where
    dropped : Phase
    dropped = phase u.dfu.state false

run_callback-Follows :
    (cfg : Config) (u : Usb) → Follows (λ r. Completion (phase_of u)) (run_callback cfg u)
unfolding run_callback
run_callback-Follows cfg u = elim (Bool-cases u.complete_cb) [
  | inl set ↦ rw set (record { moves = complete-Completion cfg u.dfu u.machine })
  | inr null ↦ rw null (record { moves = not_pending refl refl })
]

latch-Follows :
    (P : Option DfuReq → Phase → Type 0) (u : Usb) → Follows P u → Follows P (latch_address u)
unfolding latch_address
latch-Follows P u h =
    if-Follows P ((u.req.bm_request_type == 0) && (u.req.b_request == usb_req_set_address))
      (on_machine (set_reg usb_daddr_reg (bit_or (bit_and u.req.w_value 0x7f) 0x80)) u) _
      (record { moves = h.moves }) h

finish_write-Follows :
    (P : Option DfuReq → Phase → Type 0) (code : ReturnCode) (u : Usb)
    → Follows P u
    → Follows P (finish_write code u)
unfolding finish_write send_packet
finish_write-Follows P notsupp u h = stall-Follows P u h
finish_write-Follows P handled u h = record { moves = h.moves }
finish_write-Follows P next_callback u h = record { moves = h.moves }

control_out-Follows :
    (cfg : Config) (s : Fsm) (u : Usb) → Follows (Polled (phase_of u)) (control_out cfg s u)
unfolding control_out usbd_ep_read_packet
control_out-Follows cfg data_out u =
    let P = Polled (phase_of u) in
    let received = recv_chunk-Follows P u (stays u) in
    let r = usb_control_recv_chunk u in
    if-Follows P (r.0 && leb r.1.req.w_length (r.1.datasize + max_packet_size))
      (record (r.1) { fsm = last_data_out }) _ (record { moves = received.moves }) received
control_out-Follows cfg last_data_out u =
    let P = Polled (phase_of u) in
    let r = usb_control_recv_chunk u in
    if-Follows P _ _ _
      (finish_write-Follows P _ _ (record {
        moves =
            continued _ _ _
              (rw ((recv_chunk-Stays u).phase_kept) at ((dispatch-Answers cfg r.1).moves));
      }))
      (recv_chunk-Follows P u (stays u))
control_out-Follows cfg status_out u =
    let done : Usb = record ((usbd_ep_read_packet 0 0 u).1) { fsm = idle } in
    record { moves = ends_and_drops _ (run_callback-Follows cfg done).moves refl }
control_out-Follows cfg _ u = stall-Follows _ u (stays u)

control_in-Follows :
    (cfg : Config) (s : Fsm) (u : Usb) → Follows (Polled (phase_of u)) (control_in cfg s u)
unfolding control_in usbd_ep_nak_set
control_in-Follows cfg data_in u = send_chunk-Follows _ u (stays u)
control_in-Follows cfg last_data_in u = record { moves = rests refl }
control_in-Follows cfg status_in u = record {
  moves = ends (latch-Follows (λ r. Completion (phase_of u)) _ (run_callback-Follows cfg u)).moves;
}
control_in-Follows cfg _ u = stall-Follows _ u (stays u)

on_transfer-Follows :
    (cfg : Config) (istr : ℕ) (u : Usb) → Follows (Polled (phase_of u)) (on_transfer cfg istr u)
unfolding on_transfer usbd_control_in usbd_control_out
on_transfer-Follows cfg istr u =
    let P = Polled (phase_of u) in
    let r = load word (usb_ep_reg (bit_and istr usb_istr_ep_id)) u.machine in
    let sent = on_machine (usb_clr_ep_tx_ctr (bit_and istr usb_istr_ep_id)) u in
    let got : Usb = record u { machine = r.1 } in
    if-Follows P (bit_and istr usb_istr_dir == 0) _ _
      (record { moves = (control_in-Follows cfg u.fsm sent).moves })
      (if-Follows P (bit_and r.0 usb_ep_setup == 0) _ _
        (record { moves = (control_out-Follows cfg u.fsm got).moves })
        (record { moves = (setup-Follows cfg got).moves }))

reset-Follows :
    (P : Option DfuReq → Phase → Type 0) (u : Usb) → Follows P u → Follows P (on_reset u)
unfolding on_reset usbd_ep_setup setup_tx setup_rx
reset-Follows P u h = record { moves = h.moves }

poll-Follows : (cfg : Config) (u : Usb) → Follows (Polled (phase_of u)) (do_usb_poll cfg u)
unfolding do_usb_poll
poll-Follows cfg u =
    let P = Polled (phase_of u) in
    if-Follows P (bit_and istr usb_istr_reset == 0) _ _ (record { moves = transferred.moves })
      (reset-Follows P loaded (record { moves = rests refl }))
  where
    istr : ℕ
    istr = u16 (load word usb_istr_reg u.machine).0

    loaded : Usb
    loaded = record u { machine = (load word usb_istr_reg u.machine).1 }

    transferred :
        Follows
          (Polled (phase_of u))
          (if bit_and istr usb_istr_ctr == 0 then loaded else on_transfer cfg istr loaded)
    transferred =
        if-Follows (Polled (phase_of u)) (bit_and istr usb_istr_ctr == 0) _ _
          (record { moves = rests refl })
          (record { moves = (on_transfer-Follows cfg istr loaded).moves })

-- The DFU requests of the setup packets that `n` polls leave, in their order.
unfoldable pub requests : ℕ → Config → Usb → List (Option DfuReq)
requests zero cfg u = []
requests (suc n) cfg u = request_of (do_usb_poll cfg u) ∷ requests n cfg (do_usb_poll cfg u)

-- Any number of polls, whatever the peripheral answers, is as many polls of the abstract state machine,
-- each of at most the DFU request of the setup packet that it leaves or one end of a transfer:
-- dfuDNBUSY is entered only from dfuDNLOAD-SYNC, by a GETSTATUS, and dfuDNLOAD-IDLE only from
-- dfuDNBUSY, by a completion that a GETSTATUS has made pending and that no new transfer has dropped.
pub polls-refine :
    (cfg : Config) (n : ℕ) (u : Usb)
    → Runs (requests n cfg u) (phase_of u) (phase_of (polls n cfg u))
unfolding polls requests
polls-refine cfg zero u = refl
polls-refine cfg (suc n) u = (
  phase_of (do_usb_poll cfg u),
  (poll-Follows cfg u).moves,
  polls-refine cfg n (do_usb_poll cfg u),
)
