-- ===== src/Usb/Send.antt =====
-- The data stage of a read in src/usb.cpp: the packets that `usb_control_send_chunk` takes from the
-- control buffer, where they end, and when they leave the buffer.
use ln_dso_stm32_dfu_bootloa.Common.{
  ℕ, zero, suc, ◌+◌, ◌-◌, ◌*◌, ◌/◌, ◌≤◌, ◌<◌, ◌≡◌, refl, false, ◌∙◌, ap, u16, ltb, ◌==◌,
  if◌then◌else◌, arith, length,
}
use native.Mathlib.Nat.{zero-add, suc-add}
use ln_dso_stm32_dfu_bootloa.Config.{Config}
use ln_dso_stm32_dfu_bootloa.Dfu.Types.{DfuState, handled}
use ln_dso_stm32_dfu_bootloa.Dfu.{Dfu, dfu_transfer_size}
use ln_dso_stm32_dfu_bootloa.Dfu.Requests.{handle_request, usbdfu_control_request}
use ln_dso_stm32_dfu_bootloa.Usb.State.{Usb, data_in, last_data_in, max_packet_size}
use ln_dso_stm32_dfu_bootloa.Usb.Control.{
  send_packet, usb_control_send_chunk, dfu_request, usb_control_request_dispatch, answer_read,
  usb_control_setup_read, needs_zlp_after, control_in, usbd_control_in,
}

-- `n` further IN transactions of the control endpoint.
unfoldable pub in_rounds : ℕ → Config → Usb → Usb
in_rounds zero cfg u = u
in_rounds (suc n) cfg u = in_rounds n cfg (usbd_control_in cfg u)

send_more :
    (u : Usb)
    → max_packet_size < u.datasize
    → let u' = usb_control_send_chunk u in
      (u'.fsm ≡ data_in)
      × (u'.dataoff ≡ u16 (u.dataoff + max_packet_size))
      × (u'.datasize ≡ u.datasize - max_packet_size)
      × (u'.needs_zlp ≡ u.needs_zlp)
      × (u'.dfu ≡ u.dfu)
unfolding usb_control_send_chunk send_packet
send_more u h = ground arith

send_last :
    (u : Usb)
    → u.datasize ≤ max_packet_size
    → let u' = usb_control_send_chunk u in
      (u'.fsm ≡ (if u.needs_zlp then data_in else last_data_in))
      × (u'.dataoff ≡ u.dataoff)
      × (u'.datasize ≡ 0)
      × (u'.needs_zlp ≡ false)
unfolding usb_control_send_chunk send_packet
send_last u h = ground arith

in_data_in :
    (cfg : Config) (u : Usb) → u.fsm ≡ data_in → usbd_control_in cfg u ≡ usb_control_send_chunk u
unfolding usbd_control_in
in_data_in cfg u e = ap (λ s. control_in cfg s u) e ∙ unfold control_in in refl

-- The transfer after `j` full packets: what is left, from where, in which state.
record After (j : ℕ) (u v : Usb) : Type 0 where
  fsm : v.fsm ≡ data_in
  dataoff : v.dataoff ≡ u.dataoff + max_packet_size * j
  datasize : v.datasize ≡ u.datasize - max_packet_size * j
  needs_zlp : v.needs_zlp ≡ u.needs_zlp
  dfu : v.dfu ≡ u.dfu

in_rounds-After :
    (cfg : Config) (j : ℕ) (u : Usb)
    → u.fsm ≡ data_in
    → max_packet_size * j < u.datasize
    → u.dataoff + u.datasize < 65536
    → After j u (in_rounds j cfg u)
unfolding in_rounds
in_rounds-After cfg zero u e lt b = ground arith
in_rounds-After cfg (suc j) u e lt b =
    let s = send_more u (omega arith) in
    let u' = usb_control_send_chunk u in
    let next = in_rounds-After cfg j u' s.0 (omega arith) (omega arith) in
    rw (in_data_in cfg u e) (record {
      fsm = next.fsm;
      dataoff = omega arith;
      datasize = omega arith;
      needs_zlp = next.needs_zlp ∙ s.3;
      dfu = next.dfu ∙ s.4;
    })

in_rounds-add :
    (cfg : Config) (j k : ℕ) (u : Usb)
    → in_rounds (j + k) cfg u ≡ in_rounds k cfg (in_rounds j cfg u)
unfolding in_rounds
in_rounds-add cfg zero k u = rw zero-add
in_rounds-add cfg (suc j) k u = rw suc-add (in_rounds-add cfg j k (usbd_control_in cfg u))

-- The number of packets before the last one of a data stage.
abbrev pub full_packets : ℕ → ℕ
full_packets size = (size - 1) / max_packet_size

-- A data stage of at least one byte that needs no further packet of length zero, in `DATA_IN` with
-- its offset below the wrap: after any number `j` of full packets the machine is in `DATA_IN`; after
-- all of them the control buffer is unchanged, the offset stands at the first byte not sent, and 1 to
-- 64 bytes are left; the packet after them ends the stage in `LAST_DATA_IN`.
pub read_stage_ends :
    (cfg : Config) (u : Usb) (j : ℕ)
    → u.fsm ≡ data_in
    → u.needs_zlp ≡ false
    → 0 < u.datasize
    → u.dataoff + u.datasize < 65536
    → j ≤ full_packets u.datasize
    → let v = in_rounds (full_packets u.datasize) cfg u in
      ((in_rounds j cfg u).fsm ≡ data_in)
      × (v.dataoff + v.datasize ≡ u.dataoff + u.datasize)
      × (0 < v.datasize)
      × (v.datasize ≤ max_packet_size)
      × (v.dfu ≡ u.dfu)
      × ((in_rounds (full_packets u.datasize + 1) cfg u).fsm ≡ last_data_in)
read_stage_ends cfg u j e z pos b le = (
  (in_rounds-After cfg j u e (omega arith) b).fsm,
  omega (arith, a.dataoff, a.datasize),
  omega (arith, a.datasize),
  omega (arith, a.datasize),
  a.dfu,
  last,
)
  where
    v : Usb
    v = in_rounds (full_packets u.datasize) cfg u

    a : After (full_packets u.datasize) u v
    a = in_rounds-After cfg (full_packets u.datasize) u e (omega arith) b

    last : (in_rounds (full_packets u.datasize + 1) cfg u).fsm ≡ last_data_in
    last =
        ap (λ (w : Usb). w.fsm) (in_rounds-add cfg (full_packets u.datasize) 1 u)
        ∙ (unfold in_rounds in
            ap (λ (w : Usb). w.fsm) (in_data_in cfg v a.fsm)
            ∙ (send_last v (omega (arith, a.datasize))).0
            ∙ ap (λ b. if b then data_in else last_data_in) (a.needs_zlp ∙ z))

abort_dispatch :
    (cfg : Config) (u : Usb)
    → u.req.bm_request_type ≡ 0xa1
    → u.req.b_request ≡ 6
    → usb_control_request_dispatch cfg u ≡ (
      handled,
      record u { datasize = u.req.w_length; dfu = record (u.dfu) { state = DfuState.idle } },
    )
unfolding usb_control_request_dispatch dfu_request usbdfu_control_request handle_request
abort_dispatch cfg u bm rq = simp (bm, rq)

-- Where the answer has the length that the host asks for, it is sent whole.
answer_read_whole :
    (w : ℕ) (u : Usb)
    → u.datasize ≡ w
    → 0 < w
    → answer_read w handled u
      ≡ usb_control_send_chunk (record u { datasize = w; needs_zlp = false })
unfolding answer_read needs_zlp_after
answer_read_whole w u e pos = simp (e, not_less, not_zero)
  where
    not_less : ltb w w ≡ false
    not_less = ground arith

    not_zero : (w == 0) ≡ false
    not_zero = ground arith

-- A DFU_ABORT request with the direction bit of a read answers with as many bytes as the host
-- asks for. If these are more than 1088 and the control buffer has 1024, then after the setup
-- packet and 15 IN transactions the machine is still in `DATA_IN`, with the offset of the next
-- packet at the end of the buffer and more than 64 bytes to send.
pub abort_reads_past_buffer :
    (cfg : Config) (u : Usb)
    → u.req.bm_request_type ≡ 0xa1
    → u.req.b_request ≡ 6
    → 1088 < u.req.w_length
    → u.req.w_length < 65536
    → length u.dfu.buffer ≡ dfu_transfer_size
    → let v = in_rounds 15 cfg (usb_control_setup_read cfg u) in
      (v.fsm ≡ data_in) × (v.dataoff ≡ length v.dfu.buffer) × (64 < v.datasize)
unfolding usb_control_setup_read
abort_reads_past_buffer cfg u bm rq long short size =
    rw (abort_dispatch cfg (record u { dataoff = 0 }) bm rq) (
      rw (answer_read_whole u.req.w_length answer refl (omega arith)) (
        a.fsm,
        omega
            (arith, a.dataoff, first.1, size, ap (λ (d : Dfu). length d.buffer) (a.dfu ∙ first.4)),
        omega (arith, a.datasize, first.2),
      ))
  where
    answer : Usb
    answer = record u {
      datasize = u.req.w_length;
      dataoff = 0;
      dfu = record (u.dfu) { state = DfuState.idle };
    }

    start : Usb
    start = record answer { needs_zlp = false }

    first :
        let v = usb_control_send_chunk start in
        (v.fsm ≡ data_in)
        × (v.dataoff ≡ u16 (0 + max_packet_size))
        × (v.datasize ≡ u.req.w_length - max_packet_size)
        × (v.needs_zlp ≡ false)
        × (v.dfu ≡ start.dfu)
    first = send_more start (omega arith)

    a : After 15 (usb_control_send_chunk start) (in_rounds 15 cfg (usb_control_send_chunk start))
    a =
        in_rounds-After cfg 15 (usb_control_send_chunk start) first.0 (omega (arith, first.2))
          (omega (arith, first.1, first.2))
