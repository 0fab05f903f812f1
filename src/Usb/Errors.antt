-- ===== src/Usb/Errors.antt =====
-- The stalled transfers of src/usb.cpp: what is left of them.
use ln_dso_stm32_dfu_bootloa.Common.{
  ℕ, ◌≡◌, ◌⊎◌, refl, sym, ◌∙◌, Bool, true, false, ◌==◌, ltb, arith, Bool-cases, inl, inr,
  if◌then◌else◌, List, length,
}
use ln_dso_stm32_dfu_bootloa.Machine.{Machine}
use ln_dso_stm32_dfu_bootloa.Config.{Config}
use ln_dso_stm32_dfu_bootloa.Dfu.Types.{ReturnCode, notsupp, handled, next_callback, SetupData}
use ln_dso_stm32_dfu_bootloa.Dfu.{Dfu, dfu_transfer_size}
use ln_dso_stm32_dfu_bootloa.Usb.State.{
  Usb, Fsm, idle, data_out, last_data_out, status_out, max_packet_size,
}
use ln_dso_stm32_dfu_bootloa.Usb.Packet.{usbd_ep_read_packet, usbd_ep_nak_set, stall_transaction}
use ln_dso_stm32_dfu_bootloa.Usb.Stall.{IsStalled, ep_stall_set-IsStalled}
use ln_dso_stm32_dfu_bootloa.Usb.Control.{
  usb_control_send_chunk, usb_control_recv_chunk, answer_read, usb_control_setup_read,
  usb_control_setup_write, usbd_control_setup, finish_write, control_out, usbd_control_out,
}
use ln_dso_stm32_dfu_bootloa.Usb.Receive.{next_size, next_bytes, recv_chunk-IsAccepted}
use ln_dso_stm32_dfu_bootloa.Usb.Kept.{IsKept, dispatch-Keeps}

-- The transfer has ended with STALL for both directions of endpoint 0, and the rest is kept.
pub record IsRefused (d : Dfu) (c : Bool) (u : Usb) : Type 0 where
  pub kept : IsKept d c u
  pub fsm : u.fsm ≡ idle
  pub stalled : IsStalled u.machine

module _ (d : Dfu) (c : Bool) where
  -- A transfer that has ended was refused.
  record Ends (u : Usb) : Type 0 where
    ends : u.fsm ≡ idle → IsRefused d c u

  if-Ends : (b : Bool) (u u' : Usb) → Ends u → Ends u' → Ends (if b then u else u')
  if-Ends true u u' h h' = h
  if-Ends false u u' h h' = h'

  stall-IsRefused : (u : Usb) → IsKept d c u → IsRefused d c (stall_transaction u)
  unfolding stall_transaction
  stall-IsRefused u k = record {
    kept = record { state = k.state; prog = k.prog; erased = k.erased; pending = k.pending };
    fsm = refl;
    stalled = ep_stall_set-IsStalled u.machine;
  }

  stall-Ends : (u : Usb) → IsKept d c u → Ends (stall_transaction u)
  stall-Ends u k = record { ends = λ e. stall-IsRefused u k }

  send_chunk-Ends : (u : Usb) → Ends (usb_control_send_chunk u)
  unfolding usb_control_send_chunk
  send_chunk-Ends u = elim (Bool-cases (ltb max_packet_size u.datasize)) [
    | inl full ↦ rw full (record { ends = λ e. absurd (ground arith) })
    | inr last ↦ rw last (record { ends = λ e. absurd (ground arith) })
  ]

  answer_sent-Ends : (w : ℕ) (u : Usb) → Ends (answer_read w handled u)
  unfolding answer_read
  answer_sent-Ends w u = elim (Bool-cases (w == 0)) [
    | inl status ↦ rw status (record { ends = λ e. absurd (ground arith) })
    | inr chunk ↦ rw chunk (send_chunk-Ends _)
  ]

  answer_read-Ends :
      (w : ℕ) (code : ReturnCode) (u : Usb)
      → (code ≡ notsupp → IsKept d c u)
      → Ends (answer_read w code u)
  answer_read-Ends w notsupp u k = unfold answer_read in stall-Ends u (k refl)
  answer_read-Ends w handled u k = answer_sent-Ends w u
  answer_read-Ends w next_callback u k = unfold answer_read in answer_sent-Ends w u

  setup_read-Ends : (cfg : Config) (u : Usb) → IsKept d c u → Ends (usb_control_setup_read cfg u)
  unfolding usb_control_setup_read
  setup_read-Ends cfg u k =
      answer_read-Ends u.req.w_length _ _
        (dispatch-Keeps d c cfg (record u { dataoff = 0 })
          (record { state = k.state; prog = k.prog; erased = k.erased; pending = k.pending })).kept

  setup_write-Ends : (u : Usb) → IsKept d c u → Ends (usb_control_setup_write u)
  unfolding usb_control_setup_write usbd_ep_nak_set
  setup_write-Ends u k = elim (Bool-cases (ltb dfu_transfer_size u.req.w_length)) [
    | inl large ↦ rw large (stall-Ends u k)
    | inr fits ↦ rw fits (record { ends = λ e. absurd (ground arith) })
  ]

  finish_write-Ends :
      (code : ReturnCode) (u : Usb) → (code ≡ notsupp → IsKept d c u) → Ends (finish_write code u)
  unfolding finish_write
  finish_write-Ends notsupp u k = stall-Ends u (k refl)
  finish_write-Ends handled u k = record { ends = λ e. absurd (ground arith) }
  finish_write-Ends next_callback u k = record { ends = λ e. absurd (ground arith) }

  recv_chunk-IsKept : (u : Usb) → IsKept d c u → IsKept d c (usb_control_recv_chunk u).1
  unfolding usb_control_recv_chunk usbd_ep_read_packet stall_transaction
  recv_chunk-IsKept u k = ground arith

  recv_chunk-Ends :
      (u : Usb)
      → IsKept d c u
      → (usb_control_recv_chunk u).0 ≡ false
      → Ends (usb_control_recv_chunk u).1
  unfolding usb_control_recv_chunk usbd_ep_read_packet
  recv_chunk-Ends u k refused = elim (Bool-cases (length (next_bytes u) == next_size u)) [
    | inl full ↦ absurd (ground arith)
    | inr short ↦ rw short (
        stall-Ends _
          (record { state = k.state; prog = k.prog; erased = k.erased; pending = k.pending }))
  ]

  going-Ends : (u : Usb) → u.fsm ≡ data_out → Ends u
  going-Ends u e = record {
    ends = λ i. absurd (let h : data_out ≡ idle = sym e ∙ i in ground arith);
  }

  last-Ends : (u : Usb) → Ends (record u { fsm = last_data_out })
  last-Ends u = record { ends = λ i. absurd (ground arith) }

  control_out-Ends :
      (cfg : Config) (s : Fsm) (u : Usb)
      → IsKept d c u
      → u.fsm ≡ s
      → (s ≡ data_out) ⊎ (s ≡ last_data_out)
      → Ends (control_out cfg s u)
  unfolding control_out
  control_out-Ends cfg data_out u k e stage = elim (Bool-cases (usb_control_recv_chunk u).0) [
    | inl ok ↦ rw ok (
        if-Ends _ _ _ (last-Ends (usb_control_recv_chunk u).1)
          (going-Ends _ ((recv_chunk-IsAccepted u ok).fsm ∙ e)))
    | inr refused ↦ rw refused (recv_chunk-Ends u k refused)
  ]
  control_out-Ends cfg last_data_out u k e stage = elim (Bool-cases (usb_control_recv_chunk u).0) [
    | inl ok ↦ rw ok (finish_write-Ends _ _ (dispatch-Keeps d c cfg _ (recv_chunk-IsKept u k)).kept)
    | inr refused ↦ rw refused (recv_chunk-Ends u k refused)
  ]
  control_out-Ends cfg status_out u k e stage = absurd (ground arith)
  control_out-Ends cfg _ u k e stage = stall-Ends u k

-- A transfer that `usbd_control_setup` does not start is stalled for both directions of endpoint 0
-- (the last accesses load and store its register twice, and what is stored makes STAT_TX and then
-- STAT_RX of the register as loaded STALL, the latter with STAT_TX as it is by then), and leaves
-- the DFU state, the pending command, the erased flag, and no completion.
pub setup_stalls :
    (cfg : Config) (u : Usb)
    → (usbd_control_setup cfg u).fsm ≡ idle
    → IsRefused u.dfu false (usbd_control_setup cfg u)
unfolding usbd_control_setup usbd_ep_nak_set usbd_ep_read_packet
setup_stalls cfg u =
    (if-Ends u.dfu false _ _ _ (stall-Ends u.dfu false _ started) (
      if-Ends u.dfu false _ _ _ (setup_read-Ends u.dfu false cfg _ started)
        (setup_write-Ends u.dfu false _ started))).ends
  where
    started :
        {req : SetupData} {nak : List ℕ} {m : Machine}
        → IsKept u.dfu false
            (record u { req = req; force_nak = nak; complete_cb = false; machine = m })
    started = record { state = refl; prog = refl; erased = refl; pending = refl }

-- In the data stage of a write, a packet or a request that ends the transfer has stalled both
-- directions of endpoint 0 (the last accesses load and store its register twice, and what is stored
-- makes STAT_TX and then STAT_RX of the register as loaded STALL, the latter with STAT_TX as it is
-- by then), and leaves the DFU state, the pending command, the erased flag and the completion.
pub data_stage_stalls :
    (cfg : Config) (u : Usb)
    → (u.fsm ≡ data_out) ⊎ (u.fsm ≡ last_data_out)
    → (usbd_control_out cfg u).fsm ≡ idle
    → IsRefused u.dfu u.complete_cb (usbd_control_out cfg u)
unfolding usbd_control_out
data_stage_stalls cfg u stage =
    (control_out-Ends u.dfu u.complete_cb cfg u.fsm u
      (record { state = refl; prog = refl; erased = refl; pending = refl }) refl stage).ends
