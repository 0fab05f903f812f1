-- ===== src/Usb/Phases.antt =====
-- What the parts of a transfer in src/usb.cpp do to the DFU state and the pending completion.
use ln_dso_stm32_dfu_bootloa.Common.{
  ℕ, ◌≡◌, ◌⊎◌, refl, Bool, true, false, ◌==◌, ltb, arith, if◌then◌else◌, Option, Bool-cases, inl,
  inr, bit_and, bit_or,
}
use ln_dso_stm32_dfu_bootloa.Config.{Config}
use ln_dso_stm32_dfu_bootloa.Dfu.Types.{
  DfuReq, dfu_req, ReturnCode, notsupp, handled, next_callback,
}
use ln_dso_stm32_dfu_bootloa.Dfu.{dfu_transfer_size}
use ln_dso_stm32_dfu_bootloa.Dfu.Protocol.{
  Phase, phase, class_request, Requested, Polled, rests, control_request-Requested,
}
use ln_dso_stm32_dfu_bootloa.Usb.State.{Usb, max_packet_size}
use ln_dso_stm32_dfu_bootloa.Usb.Packet.{usbd_ep_read_packet, usbd_ep_nak_set, stall_transaction}
use ln_dso_stm32_dfu_bootloa.Usb.Descriptors.{
  get_string, string_descriptor, usb_standard_get_descriptor,
}
use ln_dso_stm32_dfu_bootloa.Usb.Standard.{
  usbd_standard_request_device, usbd_standard_request_interface, usbd_standard_request_endpoint,
  usbd_standard_request, usb_req_type_type, usb_req_type_recipient, usb_req_type_class,
  usb_req_type_interface,
}
use ln_dso_stm32_dfu_bootloa.Usb.Control.{
  send_packet, usb_control_send_chunk, usb_control_recv_chunk, dfu_request, is_done,
  usb_control_request_dispatch, answer_read, usb_control_setup_read, usb_control_setup_write,
}

-- What the state machine sees of the USB code.
abbrev pub phase_of : Usb → Phase
phase_of u = phase u.dfu.state u.complete_cb

-- The request of the setup packet that `u` holds.
abbrev pub request_of : Usb → Option DfuReq
request_of u = class_request u.req

-- What holds of the request and the phase of `u`.
pub record Follows (P : Option DfuReq → Phase → Type 0) (u : Usb) : Type 0 where
  pub moves : P (request_of u) (phase_of u)

-- The same with a return code.
pub record Answers (P : Option DfuReq → Phase → Type 0) (r : ReturnCode × Usb) : Type 0 where
  pub moves : P (request_of r.1) (phase_of r.1)

-- The setup packet and the phase are those of `u`.
pub record Stays (u u' : Usb) : Type 0 where
  pub packet : u'.req ≡ u.req
  pub phase_kept : phase_of u' ≡ phase_of u

pub if-Follows :
    (P : Option DfuReq → Phase → Type 0) (b : Bool) (u u' : Usb)
    → Follows P u
    → Follows P u'
    → Follows P (if b then u else u')
if-Follows P true u u' h h' = h
if-Follows P false u u' h h' = h'

if-Answers :
    (P : Option DfuReq → Phase → Type 0) (b : Bool) (r r' : ReturnCode × Usb)
    → Answers P r
    → Answers P r'
    → Answers P (if b then r else r')
if-Answers P true r r' h h' = h
if-Answers P false r r' h h' = h'

descriptor-Stays : (cfg : Config) (u : Usb) → Stays u (usb_standard_get_descriptor cfg u).1
unfolding usb_standard_get_descriptor string_descriptor get_string
descriptor-Stays cfg u = record { packet = ground arith; phase_kept = ground arith }

device-Stays : (cfg : Config) (u : Usb) → Stays u (usbd_standard_request_device cfg u).1
unfolding usbd_standard_request_device
device-Stays cfg u = record {
  packet = ground (arith, (descriptor-Stays cfg u).packet);
  phase_kept = ground (arith, (descriptor-Stays cfg u).phase_kept);
}

interface-Stays : (u : Usb) → Stays u (usbd_standard_request_interface u).1
unfolding usbd_standard_request_interface
interface-Stays u = record { packet = ground arith; phase_kept = ground arith }

endpoint-Stays : (u : Usb) → Stays u (usbd_standard_request_endpoint u).1
unfolding usbd_standard_request_endpoint
endpoint-Stays u = record { packet = ground arith; phase_kept = ground arith }

standard-Stays : (cfg : Config) (u : Usb) → Stays u (usbd_standard_request cfg u).1
unfolding usbd_standard_request
standard-Stays cfg u = record {
  packet =
      ground
        (arith, (device-Stays cfg u).packet, (interface-Stays u).packet, (endpoint-Stays u).packet);
  phase_kept = ground (
    arith,
    (device-Stays cfg u).phase_kept,
    (interface-Stays u).phase_kept,
    (endpoint-Stays u).phase_kept,
  );
}

Stays-Follows :
    (P : Option DfuReq → Phase → Type 0) (u u' : Usb) → Stays u u' → Follows P u → Follows P u'
Stays-Follows P u u' k h = record { moves = rw (k.packet, k.phase_kept) (h.moves) }

standard-Answers :
    (P : Option DfuReq → Phase → Type 0) (cfg : Config) (u : Usb)
    → Follows P u
    → Answers P (usbd_standard_request cfg u)
standard-Answers P cfg u h = record { moves = (Stays-Follows P u _ (standard-Stays cfg u) h).moves }

pub weaker-Follows :
    (P Q : Option DfuReq → Phase → Type 0) (u : Usb)
    → ((r : Option DfuReq) (q : Phase) → P r q → Q r q)
    → Follows P u
    → Follows Q u
weaker-Follows P Q u w h = record { moves = w (request_of u) (phase_of u) h.moves }

-- What the DFU code makes of the request.
dfu_request_moves :
    (cfg : Config) (u : Usb)
    → Requested (phase_of u) (dfu_req u.req.b_request) (phase_of (dfu_request cfg u).1)
unfolding dfu_request
dfu_request_moves cfg u =
    control_request-Requested cfg u.req u.req.w_length u.complete_cb u.dfu u.machine

dfu_request_packet : (cfg : Config) (u : Usb) → (dfu_request cfg u).1.req ≡ u.req
unfolding dfu_request
dfu_request_packet cfg u = refl

-- What a poll does to the phase that handles the request of the setup packet at most.
abbrev pub Asked : Phase → Option DfuReq → Phase → Type 0
Asked p r q = Requested p r q ⊎ (q ≡ p)

pub dispatch-Answers :
    (cfg : Config) (u : Usb) → Answers (Asked (phase_of u)) (usb_control_request_dispatch cfg u)
unfolding usb_control_request_dispatch
dispatch-Answers cfg u =
    elim (Bool-cases (
      bit_and u.req.bm_request_type (bit_or usb_req_type_type usb_req_type_recipient)
      == bit_or usb_req_type_class usb_req_type_interface)) [
        | inl class ↦
            let P = Asked (phase_of u) in
            let asked : Follows P (dfu_request cfg u).1 = record {
              moves = inl (rw (dfu_request_packet cfg u, class) (dfu_request_moves cfg u));
            } in
            rw class (
              if-Answers P (is_done (dfu_request cfg u).0) (dfu_request cfg u) _
                (record { moves = asked.moves })
                (standard-Answers P cfg (dfu_request cfg u).1 asked))
        | inr not_class ↦
            rw not_class (standard-Answers (Asked (phase_of u)) cfg u (record { moves = inr refl }))
      ]

pub stall-Follows :
    (P : Option DfuReq → Phase → Type 0) (u : Usb) → Follows P u → Follows P (stall_transaction u)
unfolding stall_transaction
stall-Follows P u h = record { moves = h.moves }

pub send_chunk-Follows :
    (P : Option DfuReq → Phase → Type 0) (u : Usb)
    → Follows P u
    → Follows P (usb_control_send_chunk u)
unfolding usb_control_send_chunk send_packet
send_chunk-Follows P u h =
    if-Follows P (ltb max_packet_size u.datasize) _ _ (record { moves = h.moves })
      (record { moves = h.moves })

pub recv_chunk-Stays : (u : Usb) → Stays u (usb_control_recv_chunk u).1
unfolding usb_control_recv_chunk usbd_ep_read_packet stall_transaction
recv_chunk-Stays u = record { packet = ground arith; phase_kept = ground arith }

pub stays : (u : Usb) → Follows (Polled (phase_of u)) u
stays u = record { moves = rests refl }

pub recv_chunk-Follows :
    (P : Option DfuReq → Phase → Type 0) (u : Usb)
    → Follows P u
    → Follows P (usb_control_recv_chunk u).1
recv_chunk-Follows P u h = Stays-Follows P u _ (recv_chunk-Stays u) h

answer_sent-Follows :
    (P : Option DfuReq → Phase → Type 0) (w : ℕ) (u : Usb)
    → Follows P u
    → Follows P (answer_read w handled u)
unfolding answer_read send_packet
answer_sent-Follows P w u h =
    if-Follows P (w == 0) _ _ (record { moves = h.moves })
      (send_chunk-Follows P _ (record { moves = h.moves }))

answer_read-Follows :
    (P : Option DfuReq → Phase → Type 0) (w : ℕ) (code : ReturnCode) (u : Usb)
    → Follows P u
    → Follows P (answer_read w code u)
answer_read-Follows P w notsupp u h = unfold answer_read in stall-Follows P u h
answer_read-Follows P w handled u h = answer_sent-Follows P w u h
answer_read-Follows P w next_callback u h = unfold answer_read in answer_sent-Follows P w u h

pub setup_read-Follows :
    (cfg : Config) (u : Usb) → Follows (Asked (phase_of u)) (usb_control_setup_read cfg u)
unfolding usb_control_setup_read
setup_read-Follows cfg u =
    answer_read-Follows (Asked (phase_of u)) u.req.w_length _ _
      (record { moves = (dispatch-Answers cfg (record u { dataoff = 0 })).moves })

pub setup_write-Follows :
    (P : Option DfuReq → Phase → Type 0) (u : Usb)
    → Follows P u
    → Follows P (usb_control_setup_write u)
unfolding usb_control_setup_write usbd_ep_nak_set
setup_write-Follows P u h =
    if-Follows P (ltb dfu_transfer_size u.req.w_length) _ _ (stall-Follows P u h)
      (record { moves = h.moves })
