-- ===== src/Usb/Receive.antt =====
-- The data stage of a write in src/usb.cpp: the packets that `usb_control_recv_chunk` puts into the
-- control buffer, through any sequence of polls.
use ln_dso_stm32_dfu_bootloa.Common.{
  ℕ, ◌+◌, ◌-◌, ◌≤◌, ◌<◌, ◌≡◌, refl, true, false, List, length, ltb, ◌==◌, arith, ==→eq, Bool-cases,
  ◌⊎◌, inl, inr, u16, ap, ◌∙◌, get_or, overlay, get_or-overlay, get_or-overlay_below, if◌then◌else◌,
}
use ln_dso_stm32_dfu_bootloa.Dfu.{dfu_transfer_size}
use ln_dso_stm32_dfu_bootloa.Dfu.Invariant.{IsValid}
use ln_dso_stm32_dfu_bootloa.Usb.State.{Usb, Fsm, idle, data_out, last_data_out, max_packet_size}
use ln_dso_stm32_dfu_bootloa.Usb.Packet.{usbd_ep_read_packet, stall_transaction}
use ln_dso_stm32_dfu_bootloa.Usb.Control.{packet_size, usb_control_recv_chunk}
use ln_dso_stm32_dfu_bootloa.Usb.Buffer.{overlay-IsValid}

-- In the data stage of a write, `n` bytes of `w` have come: before the last packet more than a packet
-- is missing, at the last packet at most one is.
abbrev pub InStage : Fsm → ℕ → ℕ → Type 0
InStage data_out w n = (w ≤ dfu_transfer_size) × (n + max_packet_size < w)
InStage last_data_out w n = (w ≤ dfu_transfer_size) × (n ≤ w) × (w ≤ n + max_packet_size)
InStage _ w n = Unit

pub record UsbValid (u : Usb) : Type 0 where
  pub dfu : IsValid u.dfu
  pub stage : InStage u.fsm u.req.w_length u.datasize

-- The size of the packet that the data stage waits for.
abbrev pub next_size : Usb → ℕ
next_size u = packet_size u.req.w_length u.datasize

-- The bytes that the hardware has for it.
abbrev pub next_bytes : Usb → List ℕ
next_bytes u = (usbd_ep_read_packet 0 (next_size u) u).0

pub recv_chunk-IsValid : (u : Usb) → IsValid u.dfu → IsValid (usb_control_recv_chunk u).1.dfu
unfolding usb_control_recv_chunk usbd_ep_read_packet stall_transaction
recv_chunk-IsValid u v = elim (Bool-cases (length (next_bytes u) == next_size u)) [
  | inl full ↦ rw full (overlay-IsValid u.dfu u.datasize (next_bytes u) v)
  | inr short ↦ rw short (overlay-IsValid u.dfu u.datasize (next_bytes u) v)
]

-- What an accepted packet does.
pub record IsAccepted (u u' : Usb) : Type 0 where
  pub size : length (next_bytes u) ≡ next_size u
  pub datasize : u'.datasize ≡ u16 (u.datasize + next_size u)
  pub fsm : u'.fsm ≡ u.fsm
  pub req : u'.req ≡ u.req
  pub buffer : u'.dfu.buffer ≡ overlay u.dfu.buffer u.datasize (next_bytes u)

pub recv_chunk-IsAccepted :
    (u : Usb) → (usb_control_recv_chunk u).0 ≡ true → IsAccepted u (usb_control_recv_chunk u).1
unfolding usb_control_recv_chunk usbd_ep_read_packet
recv_chunk-IsAccepted u ok = elim (Bool-cases (length (next_bytes u) == next_size u)) [
  | inl full ↦ record {
    size = ==→eq (length (next_bytes u)) (next_size u) full;
    datasize = rw full refl;
    fsm = rw full refl;
    req = rw full refl;
    buffer = rw full refl;
  }
  | inr short ↦ absurd (ground arith)
]

pub recv_chunk_refused :
    (u : Usb) → (usb_control_recv_chunk u).0 ≡ false → (usb_control_recv_chunk u).1.fsm ≡ idle
unfolding usb_control_recv_chunk stall_transaction
recv_chunk_refused u refused = ground arith

pub stage_at : (u : Usb) (s : Fsm) → UsbValid u → u.fsm ≡ s → InStage s u.req.w_length u.datasize
stage_at u s v e = rw (← e) (v.stage)

-- The sizes after an accepted packet, in either state of the data stage.
pub more_size :
    (u : Usb)
    → UsbValid u
    → u.fsm ≡ data_out
    → (next_size u ≡ max_packet_size) × (u.datasize + next_size u ≤ u.req.w_length)
more_size u v e = let b = stage_at u data_out v e in (ground arith, ground arith)

last_size :
    (u : Usb) → UsbValid u → u.fsm ≡ last_data_out → u.datasize + next_size u ≡ u.req.w_length
last_size u v e = let b = stage_at u last_data_out v e in ground arith

write_stage :
    (u : Usb)
    → UsbValid u
    → (u.fsm ≡ data_out) ⊎ (u.fsm ≡ last_data_out)
    → (u.datasize + next_size u ≤ u.req.w_length) × (u.req.w_length ≤ dfu_transfer_size)
write_stage u v (inl more) = ((more_size u v more).1, (stage_at u data_out v more).0)
write_stage u v (inr last) =
    (omega (arith, last_size u v last), (stage_at u last_data_out v last).0)

-- Under the invariant, in either state of the data stage of a write, an accepted packet moves
-- `datasize` forward by its size and not past wLength nor past the buffer, keeps the bytes
-- received before, and puts its own bytes behind them.
pub recv_chunk_stores :
    (u : Usb) (j : ℕ)
    → UsbValid u
    → (u.fsm ≡ data_out) ⊎ (u.fsm ≡ last_data_out)
    → (usb_control_recv_chunk u).0 ≡ true
    → j < u.datasize + next_size u
    → let u' = (usb_control_recv_chunk u).1 in
      (u'.datasize ≡ u.datasize + next_size u)
      × (u'.datasize ≤ u.req.w_length)
      × (u'.datasize ≤ length u'.dfu.buffer)
      × (get_or u'.dfu.buffer j 0 ≡ (
          if ltb j u.datasize
          then get_or u.dfu.buffer j 0
          else get_or (next_bytes u) (j - u.datasize) 0))
recv_chunk_stores u j v s ok lt = (
  sized,
  omega (arith, sized, b),
  omega (arith, sized, b, (recv_chunk-IsValid u v.dfu).buffer_size),
  ap (λ buf. get_or buf j 0) a.buffer ∙ stored_byte,
)
  where
    a : IsAccepted u (usb_control_recv_chunk u).1
    a = recv_chunk-IsAccepted u ok

    b : (u.datasize + next_size u ≤ u.req.w_length) × (u.req.w_length ≤ dfu_transfer_size)
    b = write_stage u v s

    sized : (usb_control_recv_chunk u).1.datasize ≡ u.datasize + next_size u
    sized = omega (arith, a.datasize, b)

    stored_byte : get_or (overlay u.dfu.buffer u.datasize (next_bytes u)) j 0 ≡ (
        if ltb j u.datasize
        then get_or u.dfu.buffer j 0
        else get_or (next_bytes u) (j - u.datasize) 0)
    stored_byte = elim (Bool-cases (ltb j u.datasize)) [
      | inl before ↦
          rw before (get_or-overlay_below u.dfu.buffer u.datasize (next_bytes u) j 0 (ground arith))
      | inr here ↦
          let le : u.datasize ≤ j = ground arith in
          rw here (
            get_or-overlay u.dfu.buffer u.datasize (next_bytes u) (j - u.datasize) j 0 (omega arith)
              (omega (arith, a.size)) (omega (arith, a.size, b, v.dfu.buffer_size)))
    ]

-- Under the invariant, when the last packet has been accepted, all of wLength has been received.
pub recv_chunk_last :
    (u : Usb)
    → UsbValid u
    → u.fsm ≡ last_data_out
    → (usb_control_recv_chunk u).0 ≡ true
    → (usb_control_recv_chunk u).1.datasize ≡ u.req.w_length
recv_chunk_last u v e ok = omega (
  arith,
  (recv_chunk-IsAccepted u ok).datasize,
  last_size u v e,
  (stage_at u last_data_out v e).0,
)
