-- ===== src/Usb/Kept.antt =====
-- The requests of src/usb.cpp that are not supported: what is left of them.
use ln_dso_stm32_dfu_bootloa.Common.{
  ℕ, ◌≡◌, ◌⊎◌, refl, Bool, true, false, arith, Bool-cases, inl, inr, if◌then◌else◌, Option, none,
  some,
}
use ln_dso_stm32_dfu_bootloa.Machine.{Machine}
use ln_dso_stm32_dfu_bootloa.Config.{Config}
use ln_dso_stm32_dfu_bootloa.Dfu.Types.{
  ReturnCode, notsupp, handled, DfuReq, dnload, upload, getstatus, clrstatus, getstate, abort,
  detach, dfu_req, SetupData,
}
use ln_dso_stm32_dfu_bootloa.Dfu.{Dfu}
use ln_dso_stm32_dfu_bootloa.Dfu.Requests.{usbdfu_control_request, handle_request, upload_request}
use ln_dso_stm32_dfu_bootloa.Usb.State.{Usb}
use ln_dso_stm32_dfu_bootloa.Usb.Descriptors.{
  get_string, string_descriptor, usb_standard_get_descriptor,
}
use ln_dso_stm32_dfu_bootloa.Usb.Standard.{
  usbd_standard_request_device, usbd_standard_request_interface, usbd_standard_request_endpoint,
  usbd_standard_request,
}
use ln_dso_stm32_dfu_bootloa.Usb.Control.{dfu_request, usb_control_request_dispatch, is_done}

-- The DFU globals but the buffer, and the pending completion, are as they were.
pub record IsKept (d : Dfu) (c : Bool) (u : Usb) : Type 0 where
  pub state : u.dfu.state ≡ d.state
  pub prog : u.dfu.prog ≡ d.prog
  pub erased : u.dfu.erased ≡ d.erased
  pub pending : u.complete_cb ≡ c

module _ (d : Dfu) (c : Bool) where
  -- A request that is not supported keeps them.
  pub record Keeps (r : ReturnCode × Usb) : Type 0 where
    pub kept : r.0 ≡ notsupp → IsKept d c r.1

  if-Keeps : (b : Bool) (r r' : ReturnCode × Usb) → Keeps r → Keeps r' → Keeps (if b then r else r')
  if-Keeps true r r' h h' = h
  if-Keeps false r r' h h' = h'

  descriptor-IsKept :
      (cfg : Config) (u : Usb) → IsKept d c u → IsKept d c (usb_standard_get_descriptor cfg u).1
  unfolding usb_standard_get_descriptor string_descriptor get_string
  descriptor-IsKept cfg u k = ground arith

  device-IsKept :
      (cfg : Config) (u : Usb) → IsKept d c u → IsKept d c (usbd_standard_request_device cfg u).1
  unfolding usbd_standard_request_device
  device-IsKept cfg u k = ground (arith, descriptor-IsKept cfg u)

  interface-IsKept : (u : Usb) → IsKept d c u → IsKept d c (usbd_standard_request_interface u).1
  unfolding usbd_standard_request_interface
  interface-IsKept u k = ground arith

  endpoint-IsKept : (u : Usb) → IsKept d c u → IsKept d c (usbd_standard_request_endpoint u).1
  unfolding usbd_standard_request_endpoint
  endpoint-IsKept u k = ground arith

  standard-IsKept :
      (cfg : Config) (u : Usb) → IsKept d c u → IsKept d c (usbd_standard_request cfg u).1
  unfolding usbd_standard_request
  standard-IsKept cfg u k =
      ground (arith, device-IsKept cfg u k, interface-IsKept u k, endpoint-IsKept u k)

  standard-Keeps : (cfg : Config) (u : Usb) → IsKept d c u → Keeps (usbd_standard_request cfg u)
  standard-Keeps cfg u k = record { kept = λ e. standard-IsKept cfg u k }

  -- A request of the class is done or, if it is unknown, passed on with nothing changed.
  passed_on :
      (cfg : Config) (r : Option DfuReq) (req : SetupData) (len : ℕ) (d' : Dfu) (m : Machine)
      → let a = handle_request cfg r req len c d' m in
        (is_done a.code ≡ false → (a.dfu ≡ d') × (a.complete ≡ c))
        × (is_done a.code ≡ true → a.code ≡ handled)
  unfolding handle_request upload_request
  passed_on cfg none req len d' m = (λ e. (refl, refl), λ e. cc)
  passed_on cfg (some upload) req len d' m = ground arith
  passed_on cfg (some dnload) req len d' m = (λ e. cc, λ e. refl)
  passed_on cfg (some clrstatus) req len d' m = (λ e. cc, λ e. refl)
  passed_on cfg (some abort) req len d' m = (λ e. cc, λ e. refl)
  passed_on cfg (some detach) req len d' m = (λ e. cc, λ e. refl)
  passed_on cfg (some getstatus) req len d' m = (λ e. cc, λ e. refl)
  passed_on cfg (some getstate) req len d' m = (λ e. cc, λ e. refl)

  pub dispatch-Keeps :
      (cfg : Config) (u : Usb) → IsKept d c u → Keeps (usb_control_request_dispatch cfg u)
  unfolding usb_control_request_dispatch
  dispatch-Keeps cfg u k =
      if-Keeps _ _ _ (by_code (Bool-cases (is_done (dfu_request cfg u).0))) (standard-Keeps cfg u k)
    where
      a :
          (is_done (dfu_request cfg u).0 ≡ false
            → ((dfu_request cfg u).1.dfu ≡ u.dfu) × ((dfu_request cfg u).1.complete_cb ≡ c))
          × (is_done (dfu_request cfg u).0 ≡ true → (dfu_request cfg u).0 ≡ handled)
      a =
          unfold dfu_request usbdfu_control_request in
          rw k.pending
            (passed_on cfg (dfu_req u.req.b_request) u.req u.req.w_length u.dfu u.machine)

      by_code :
          (is_done (dfu_request cfg u).0 ≡ true) ⊎ (is_done (dfu_request cfg u).0 ≡ false)
          → Keeps (
              if is_done (dfu_request cfg u).0
              then dfu_request cfg u
              else usbd_standard_request cfg (dfu_request cfg u).1)
      by_code (inl done) = rw done (record { kept = λ e. absurd (ground (arith, a.1 done)) })
      by_code (inr passed) =
          rw passed (record { kept = λ e. standard-IsKept cfg _ (ground (arith, a.0 passed)) })
