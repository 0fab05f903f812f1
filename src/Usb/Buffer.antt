-- ===== src/Usb/Buffer.antt =====
-- The control buffer of src/usb.cpp under the standard requests and the dispatch: its size stays.
use ln_dso_stm32_dfu_bootloa.Common.{
  ℕ, ◌+◌, ◌*◌, ◌≡◌, refl, List, [], ◌∷◌, ◌∙◌, length, set, overlay, take, arith, get_or, length-set,
  length-overlay, Bool-cases, inl, inr, ◌==◌, ◌-◌, ◌%◌, leb, u8, if◌then◌else◌, bit_and,
}
use ln_dso_stm32_dfu_bootloa.Config.{Config}
use ln_dso_stm32_dfu_bootloa.Stubs.{strlen}
use ln_dso_stm32_dfu_bootloa.Dfu.{Dfu}
use ln_dso_stm32_dfu_bootloa.Dfu.Invariant.{IsValid, usbdfu_control_request-IsValid}
use ln_dso_stm32_dfu_bootloa.Usb.State.{Usb, on_buffer}
use ln_dso_stm32_dfu_bootloa.Usb.Packet.{ep_stall_get}
use ln_dso_stm32_dfu_bootloa.Usb.Structs.{le16}
use ln_dso_stm32_dfu_bootloa.Usb.Descriptors.{
  put_chars, get_string, string_descriptor, usb_standard_get_descriptor, dev_desc, config_desc,
  usb_dt_string, usb_langid_english_us,
}
use ln_dso_stm32_dfu_bootloa.Usb.Standard.{
  usbd_standard_request_device, usbd_standard_request_interface, usbd_standard_request_endpoint,
  usbd_standard_request,
}
use ln_dso_stm32_dfu_bootloa.Usb.Control.{dfu_request, usb_control_request_dispatch}

-- The invariant does not look at the contents of the control buffer.
pub buffer-IsValid :
    (d : Dfu) (b : List ℕ)
    → length b ≡ length d.buffer
    → IsValid d
    → IsValid (record d { buffer = b })
buffer-IsValid d b e v = record {
  buffer_size = e ∙ v.buffer_size;
  prog_size = v.prog_size;
  len_fits = v.len_fits;
  pending = v.pending;
}

pub overlay-IsValid :
    (d : Dfu) (i : ℕ) (bytes : List ℕ)
    → IsValid d
    → IsValid (record d { buffer = overlay d.buffer i bytes })
overlay-IsValid d i bytes v =
    buffer-IsValid d (overlay d.buffer i bytes) (length-overlay d.buffer i bytes) v

pub length-put_chars : (s : List ℕ) (i : ℕ) (b : List ℕ) → length (put_chars s i b) ≡ length b
unfolding put_chars
length-put_chars [] i b = refl
length-put_chars (c ∷ s) i b =
    length-put_chars s (i + 1) (overlay b (2 + 2 * i) (le16 c))
    ∙ length-overlay b (2 + 2 * i) (le16 c)

get_string-IsValid :
    (descr_idx w_index : ℕ) (u : Usb)
    → IsValid u.dfu
    → IsValid (get_string descr_idx w_index u).1.dfu
unfolding get_string
get_string-IsValid descr_idx w_index u v =
    elim (Bool-cases (leb (length u.strings) (descr_idx - 1))) [
      | inl out ↦ rw out v
      | inr inside ↦ rw inside (elim (Bool-cases (w_index == usb_langid_english_us)) [
        | inl english ↦ rw english (
            written
              (take (strlen (get_or u.strings (descr_idx - 1) []))
                (get_or u.strings (descr_idx - 1) []))
              (u8 (strlen (get_or u.strings (descr_idx - 1) []) * 2 + 2)))
        | inr other ↦ rw other v
      ])
    ]
  where
    written :
        (text : List ℕ) (size : ℕ)
        → IsValid (record (u.dfu) { buffer = put_chars text 0 (set u.dfu.buffer 0 size) })
    written text size =
        buffer-IsValid u.dfu _
          (length-put_chars text 0 (set u.dfu.buffer 0 size) ∙ length-set u.dfu.buffer 0 size) v

string_descriptor-IsValid :
    (descr_idx w_index : ℕ) (u : Usb)
    → IsValid u.dfu
    → IsValid (string_descriptor descr_idx w_index u).1.dfu
unfolding string_descriptor
string_descriptor-IsValid descr_idx w_index u v = elim (Bool-cases (descr_idx == 0)) [
  | inl languages ↦ rw languages (
      buffer-IsValid u.dfu _
        (length-set (overlay b 2 (le16 usb_langid_english_us)) 0 4
          ∙ length-overlay b 2 (le16 usb_langid_english_us)
          ∙ length-set u.dfu.buffer 1 usb_dt_string)
        v)
  | inr text ↦ rw text (
      get_string-IsValid descr_idx w_index (on_buffer (λ b. set b 1 usb_dt_string) u)
        (buffer-IsValid u.dfu b (length-set u.dfu.buffer 1 usb_dt_string) v))
]
  where
    b : List ℕ
    b = set u.dfu.buffer 1 usb_dt_string

descriptor-IsValid :
    (cfg : Config) (u : Usb) → IsValid u.dfu → IsValid (usb_standard_get_descriptor cfg u).1.dfu
unfolding usb_standard_get_descriptor
descriptor-IsValid cfg u v = ground (
  arith,
  overlay-IsValid u.dfu 0 dev_desc v,
  overlay-IsValid u.dfu 0 (config_desc cfg) v,
  string_descriptor-IsValid (u.req.w_value % 256) u.req.w_index u v,
)

device-IsValid :
    (cfg : Config) (u : Usb) → IsValid u.dfu → IsValid (usbd_standard_request_device cfg u).1.dfu
unfolding usbd_standard_request_device
device-IsValid cfg u v = ground (
  arith,
  overlay-IsValid u.dfu 0 (1 ∷ []) v,
  overlay-IsValid u.dfu 0 (0 ∷ 0 ∷ []) v,
  descriptor-IsValid cfg u v,
)

interface-IsValid : (u : Usb) → IsValid u.dfu → IsValid (usbd_standard_request_interface u).1.dfu
unfolding usbd_standard_request_interface
interface-IsValid u v =
    ground (arith, overlay-IsValid u.dfu 0 (1 ∷ []) v, overlay-IsValid u.dfu 0 (0 ∷ 0 ∷ []) v)

endpoint-IsValid : (u : Usb) → IsValid u.dfu → IsValid (usbd_standard_request_endpoint u).1.dfu
unfolding usbd_standard_request_endpoint
endpoint-IsValid u v = ground (
  arith,
  overlay-IsValid u.dfu 0
      ((if (ep_stall_get (u8 u.req.w_index) u.machine).0 then 1 else 0) ∷ 0 ∷ []) v,
)

pub standard_request-IsValid :
    (cfg : Config) (u : Usb) → IsValid u.dfu → IsValid (usbd_standard_request cfg u).1.dfu
unfolding usbd_standard_request
standard_request-IsValid cfg u v = elim (Bool-cases (bit_and u.req.bm_request_type 0x60 == 0)) [
  | inr class ↦ rw class v
  | inl standard ↦ rw standard (elim (Bool-cases (bit_and u.req.bm_request_type 0x1f == 0)) [
    | inl device ↦ rw device (device-IsValid cfg u v)
    | inr not_device ↦ rw not_device (elim (Bool-cases (bit_and u.req.bm_request_type 0x1f == 1)) [
      | inl interface ↦ rw interface (interface-IsValid u v)
      | inr not_interface ↦
          rw not_interface (elim (Bool-cases (bit_and u.req.bm_request_type 0x1f == 2)) [
            | inl endpoint ↦ rw endpoint (endpoint-IsValid u v)
            | inr other ↦ rw other v
          ])
    ])
  ])
]

-- A request, of whatever kind, keeps the invariant of the DFU globals.
pub dispatch-IsValid :
    (cfg : Config) (u : Usb) → IsValid u.dfu → IsValid (usb_control_request_dispatch cfg u).1.dfu
unfolding usb_control_request_dispatch
dispatch-IsValid cfg u v = ground (
  arith,
  standard_request-IsValid cfg u v,
  asked,
  standard_request-IsValid cfg (dfu_request cfg u).1 asked,
)
  where
    asked : IsValid (dfu_request cfg u).1.dfu
    asked =
        unfold dfu_request in
        usbdfu_control_request-IsValid cfg u.req u.req.w_length u.complete_cb u.dfu u.machine v
