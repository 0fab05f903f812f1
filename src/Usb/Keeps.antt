-- ===== src/Usb/Keeps.antt =====
-- The accesses of the packets and the requests of src/usb.cpp, up to `usb_control_request_dispatch`.
use ln_dso_stm32_dfu_bootloa.Common.{
  ℕ, zero, suc, ◌+◌, ◌≤◌, ◌<◌, ◌≡◌, refl, Bool, true, false, not, bit_and, ◌∷◌, [], ◌||◌, length,
  ltb, ◌==◌, arith, Bool-cases, inl, inr, u8, if◌then◌else◌,
}
use ln_dso_stm32_dfu_bootloa.Machine.{Machine}
use ln_dso_stm32_dfu_bootloa.Config.{Config}
use ln_dso_stm32_dfu_bootloa.Flash.Safe.{IsSafe}
use ln_dso_stm32_dfu_bootloa.Dfu.Types.{ReturnCode, notsupp, handled}
use ln_dso_stm32_dfu_bootloa.Dfu.Graph.{usbdfu_control_request_only_loads}
use ln_dso_stm32_dfu_bootloa.Dfu.Answer.{control_request-answer}
use ln_dso_stm32_dfu_bootloa.Usb.Regs.{disabled}
use ln_dso_stm32_dfu_bootloa.Usb.State.{Usb, max_packet_size}
use ln_dso_stm32_dfu_bootloa.Usb.Packet.{usbd_ep_read_packet, usbd_ep_nak_set, stall_transaction}
use ln_dso_stm32_dfu_bootloa.Usb.Descriptors.{
  configuration_value, get_string, string_descriptor, usb_standard_get_descriptor,
}
use ln_dso_stm32_dfu_bootloa.Usb.Standard.{
  disable_endpoints, usbd_standard_request_device, usbd_standard_request_interface,
  usbd_standard_request_endpoint, usbd_standard_request, usb_req_type_recipient, usb_req_type_type,
  usb_req_type_standard, usb_req_type_device, usb_req_type_interface, usb_req_type_endpoint, reply,
  usb_req_set_address, usb_req_set_configuration, usb_req_get_configuration, usb_req_get_descriptor,
  usb_req_clear_feature, usb_req_set_feature, usb_feat_endpoint_halt, usb_req_get_status,
}
use ln_dso_stm32_dfu_bootloa.Usb.Control.{
  send_packet, usb_control_send_chunk, usb_control_recv_chunk, dfu_request,
  usb_control_request_dispatch,
}
use ln_dso_stm32_dfu_bootloa.Usb.Receive.{next_size, next_bytes}
use ln_dso_stm32_dfu_bootloa.Usb.Safe.{IsSafeSoFar, set_ep_rx_stat-Safe, set_ep_tx_stat-Safe}
use ln_dso_stm32_dfu_bootloa.Usb.SafePacket.{
  write_packet-Safe, read_packet-Safe, ep_stall_set-Safe, ep_stall_get-Safe,
}

module _ (cfg : Config) where
  -- The accesses of a state of the USB code.
  pub record Keeps (u : Usb) : Type 0 where
    pub kept : IsSafeSoFar cfg u.machine

  pub if-Keeps : (b : Bool) (u u' : Usb) → Keeps u → Keeps u' → Keeps (if b then u else u')
  if-Keeps true u u' h h' = h
  if-Keeps false u u' h h' = h'

  -- The same of a request's answer.
  pub record Gives (r : ReturnCode × Usb) : Type 0 where
    pub kept : IsSafeSoFar cfg r.1.machine

  if-Gives : (b : Bool) (p q : ReturnCode × Usb) → Gives p → Gives q → Gives (if b then p else q)
  if-Gives true p q h h' = h
  if-Gives false p q h h' = h'

  pub stall-Keeps : (u : Usb) → Keeps u → Keeps (stall_transaction u)
  unfolding stall_transaction
  stall-Keeps u h = record { kept = ep_stall_set-Safe cfg 0 true u.machine (omega arith) h.kept }

  pub nak-Keeps : (force : ℕ) (u : Usb) → Keeps u → Keeps (usbd_ep_nak_set 0 force u)
  unfolding usbd_ep_nak_set
  nak-Keeps force u h = record { kept = set_ep_rx_stat-Safe cfg 0 _ u.machine (omega arith) h.kept }

  pub read-Keeps : (len : ℕ) (u : Usb) → Keeps u → Keeps (usbd_ep_read_packet 0 len u).1
  unfolding usbd_ep_read_packet
  read-Keeps len u h = record { kept = read_packet-Safe cfg 0 len _ u.machine (omega arith) h.kept }

  pub send-Keeps : (off len : ℕ) (u : Usb) → len ≤ 64 → Keeps u → Keeps (send_packet off len u)
  unfolding send_packet
  send-Keeps off len u small h = record {
    kept = write_packet-Safe cfg u.dfu.buffer off len u.machine small h.kept;
  }

  pub send_chunk-Keeps : (u : Usb) → Keeps u → Keeps (usb_control_send_chunk u)
  unfolding usb_control_send_chunk
  send_chunk-Keeps u h = elim (Bool-cases (ltb max_packet_size u.datasize)) [
    | inl full ↦
        rw full (record { kept = (send-Keeps u.dataoff max_packet_size u (omega arith) h).kept })
    | inr last ↦
        rw last (record { kept = (send-Keeps u.dataoff u.datasize u (ground arith) h).kept })
  ]

  pub recv_chunk-Keeps : (u : Usb) → Keeps u → Keeps (usb_control_recv_chunk u).1
  unfolding usb_control_recv_chunk
  recv_chunk-Keeps u h = elim (Bool-cases (length (next_bytes u) == next_size u)) [
    | inl full ↦ rw full (record { kept = (read-Keeps (next_size u) u h).kept })
    | inr short ↦ rw short (stall-Keeps _ (record { kept = (read-Keeps (next_size u) u h).kept }))
  ]

  disable-Safe :
      (n ep : ℕ) (m : Machine)
      → n + ep < 256
      → IsSafeSoFar cfg m
      → IsSafeSoFar cfg (disable_endpoints n ep m)
  unfolding disable_endpoints
  disable-Safe zero ep m lt h = h
  disable-Safe (suc n) ep m lt h = disable-Safe n (ep + 1) _ (omega arith) (
      set_ep_rx_stat-Safe cfg ep disabled _ (omega arith)
        (set_ep_tx_stat-Safe cfg ep disabled m (omega arith) h))

  as_is : (c : ReturnCode) (u u' : Usb) → u'.machine ≡ u.machine → Keeps u → Gives (c, u')
  as_is c u u' e h = record { kept = rw e (h.kept) }

  descriptor_machine : (u : Usb) → (usb_standard_get_descriptor cfg u).1.machine ≡ u.machine
  unfolding usb_standard_get_descriptor string_descriptor get_string
  descriptor_machine u = ground arith

  descriptor-Gives : (u : Usb) → Keeps u → Gives (usb_standard_get_descriptor cfg u)
  descriptor-Gives u h = record { kept = rw (descriptor_machine u) (h.kept) }

  interface_machine : (u : Usb) → (usbd_standard_request_interface u).1.machine ≡ u.machine
  unfolding usbd_standard_request_interface
  interface_machine u = ground arith

  interface-Gives : (u : Usb) → Keeps u → Gives (usbd_standard_request_interface u)
  interface-Gives u h = record { kept = rw (interface_machine u) (h.kept) }

  device-Gives : (u : Usb) → Keeps u → Gives (usbd_standard_request_device cfg u)
  unfolding usbd_standard_request_device
  device-Gives u h =
      let r = u.req.b_request in
      if-Gives (r == usb_req_set_address) _ _ (as_is _ u u refl h) (
        if-Gives (r == usb_req_set_configuration) _ _
          (if-Gives (u.req.w_value == configuration_value) _ _
            (record { kept = disable-Safe 7 1 u.machine (omega arith) h.kept })
            (as_is notsupp u u refl h))
          (if-Gives (r == usb_req_get_configuration) _ _
            (as_is handled u (reply (1 ∷ []) 1 u) refl h)
            (if-Gives (r == usb_req_get_descriptor) _ _ (descriptor-Gives u h) (
              if-Gives (r == usb_req_get_status) _ _
                (as_is handled u (reply (0 ∷ 0 ∷ []) 2 u) refl h) (as_is notsupp u u refl h)))))

  endpoint-Gives : (u : Usb) → Keeps u → Gives (usbd_standard_request_endpoint u)
  unfolding usbd_standard_request_endpoint
  endpoint-Gives u h =
      let r = u.req.b_request in
      if-Gives ((r == usb_req_clear_feature) || (r == usb_req_set_feature)) _ _
        (if-Gives (u.req.w_value == usb_feat_endpoint_halt) _ _
          (record {
            kept =
                ep_stall_set-Safe cfg (u8 u.req.w_index) (r == usb_req_set_feature) u.machine
                  (omega arith) h.kept;
          })
          (as_is notsupp u u refl h))
        (if-Gives (r == usb_req_get_status) _ _
          (record { kept = ep_stall_get-Safe cfg (u8 u.req.w_index) u.machine h.kept })
          (as_is notsupp u u refl h))

  standard-Gives : (u : Usb) → Keeps u → Gives (usbd_standard_request cfg u)
  unfolding usbd_standard_request
  standard-Gives u h =
      let to = bit_and u.req.bm_request_type usb_req_type_recipient in
      if-Gives (not (bit_and u.req.bm_request_type usb_req_type_type == usb_req_type_standard)) _ _
        (as_is notsupp u u refl h)
        (if-Gives (to == usb_req_type_device) _ _ (device-Gives u h) (
          if-Gives (to == usb_req_type_interface) _ _ (interface-Gives u h) (
            if-Gives (to == usb_req_type_endpoint) _ _ (endpoint-Gives u h)
              (as_is notsupp u u refl h))))

  dfu_request-Gives : (u : Usb) → Keeps u → Gives (dfu_request cfg u)
  unfolding dfu_request
  dfu_request-Gives u h = record {
    kept = record {
      safe =
          usbdfu_control_request_only_loads (IsSafe cfg) (λ w a. tt) cfg u.req u.req.w_length
            u.complete_cb u.dfu u.machine h.kept.safe;
      layout =
          rw (control_request-answer cfg u.req u.req.w_length u.complete_cb u.dfu u.machine)
            (h.kept.layout);
    };
  }

  pub dispatch-Gives : (u : Usb) → Keeps u → Gives (usb_control_request_dispatch cfg u)
  unfolding usb_control_request_dispatch
  dispatch-Gives u h =
      let asked = dfu_request-Gives u h in
      if-Gives _ _ _ (if-Gives _ _ _ asked (standard-Gives _ (record { kept = asked.kept })))
        (standard-Gives u h)
