-- ===== src/Dfu/Protocol.antt =====
-- The requests of src/dfu.cpp and their completion as a state machine of the DFU state and the
-- completion that a GETSTATUS leaves pending.
use ln_dso_stm32_dfu_bootloa.Common.{
  ℕ, ◌≡◌, ◌≢◌, refl, Bool, true, false, Option, none, some, ◌==◌, ◌&&◌, Bool-cases, inl, inr, List,
  [], ◌∷◌, bit_and, bit_or, if◌then◌else◌,
}
use ln_dso_stm32_dfu_bootloa.Machine.{Machine}
use ln_dso_stm32_dfu_bootloa.Config.{Config}
use ln_dso_stm32_dfu_bootloa.Dfu.Types.{
  DfuReq, detach, dnload, upload, getstatus, clrstatus, getstate, abort, dfu_req, DfuState, idle,
  upload_idle, dnload_sync, dnbusy, dnload_idle, manifest_sync, manifest, error, SetupData,
}
use ln_dso_stm32_dfu_bootloa.Dfu.{
  Dfu, usbdfu_getstatus, usbdfu_getstatus_complete, in_app, dfu_transfer_size, block_addr,
}
use ln_dso_stm32_dfu_bootloa.Dfu.Requests.{
  clear_error, dnload_request, upload_request, getstatus_request, handle_request,
  usbdfu_control_request,
}
use ln_dso_stm32_dfu_bootloa.Usb.Standard.{
  usb_req_type_type, usb_req_type_recipient, usb_req_type_class, usb_req_type_interface,
}
use ln_dso_stm32_dfu_bootloa.Dfu.Graph.{after_complete, usbdfu_getstatus_complete_state}

-- The state that the host can ask for, and whether a completion waits for the end of the transfer.
pub record Phase : Type 0 where
  pub state : DfuState
  pub pending : Bool

-- A setup packet's DFU request, if it is a class request to the interface and one of the DFU class.
abbrev pub class_request : SetupData → Option DfuReq
class_request req =
    if bit_and req.bm_request_type (bit_or usb_req_type_type usb_req_type_recipient)
      == bit_or usb_req_type_class usb_req_type_interface
    then dfu_req req.b_request
    else none

-- The request `r` takes the phase `p` to `q`: DNLOAD, UPLOAD, ABORT and DETACH are taken in every state;
-- GETSTATUS leaves a sync state and makes the completion pending; CLRSTATUS leaves the error state;
-- GETSTATE and what is no request of the class leave everything.
pub data Requested (p : Phase) (r : Option DfuReq) (q : Phase) : Type 0 where
  download : r ≡ some dnload → q ≡ record p { state = dnload_sync } → Requested p r q
  download_end : r ≡ some dnload → q ≡ record p { state = manifest_sync } → Requested p r q
  uploads : r ≡ some upload → q ≡ record p { state = upload_idle } → Requested p r q
  upload_refused : r ≡ some upload → q ≡ record p { state = error } → Requested p r q
  status_of_download :
      r ≡ some getstatus
      → p.state ≡ dnload_sync
      → q ≡ record { state = dnbusy; pending = true }
      → Requested p r q
  status_of_manifest :
      r ≡ some getstatus
      → p.state ≡ manifest_sync
      → q ≡ record { state = manifest; pending = true }
      → Requested p r q
  status :
      r ≡ some getstatus
      → p.state ≢ dnload_sync
      → p.state ≢ manifest_sync
      → q ≡ record p { pending = true }
      → Requested p r q
  clear : r ≡ some clrstatus → p.state ≡ error → q ≡ record p { state = idle } → Requested p r q
  not_in_error : r ≡ some clrstatus → p.state ≢ error → q ≡ p → Requested p r q
  aborts : r ≡ some abort → q ≡ record p { state = idle } → Requested p r q
  detaches : r ≡ some detach → q ≡ record p { state = manifest } → Requested p r q
  state_read : r ≡ some getstate → q ≡ p → Requested p r q
  other : r ≡ none → q ≡ p → Requested p r q

-- The end of a transfer: it leaves dfuDNBUSY if the completion is pending, and nothing else.
pub data Completion (p q : Phase) : Type 0 where
  completes :
      p.state ≡ dnbusy → p.pending ≡ true → q ≡ record p { state = dnload_idle } → Completion p q
  not_busy : p.state ≢ dnbusy → q ≡ p → Completion p q
  not_pending : p.pending ≡ false → q ≡ p → Completion p q

-- One poll that leaves the setup packet with the request `r`: that request at most, in a new transfer,
-- which first drops a pending completion, or at the end of a data stage; or the end of a transfer,
-- which may drop the completion after it.
pub data Polled (p : Phase) (r : Option DfuReq) (q : Phase) : Type 0 where
  starts : Requested (record p { pending = false }) r q → Polled p r q
  drops : q ≡ record p { pending = false } → Polled p r q
  asks : Requested p r q → Polled p r q
  rests : q ≡ p → Polled p r q
  ends : Completion p q → Polled p r q
  ends_and_drops : (s : Phase) → Completion p s → q ≡ record s { pending = false } → Polled p r q

-- A poll for each request of the list, from `p` to `q`.
abbrev pub Runs : List (Option DfuReq) → Phase → Phase → Type 0
Runs [] p q = q ≡ p
Runs (r ∷ requests) p q = (s : Phase) × Polled p r s × Runs requests s q

abbrev pub phase : DfuState → Bool → Phase
phase s c = record { state = s; pending = c }

getstatus-Requested :
    (s : DfuState) (c : Bool)
    → Requested (phase s c) (some getstatus) (phase (usbdfu_getstatus s).2 true)
unfolding usbdfu_getstatus
getstatus-Requested dnload_sync c = (status_of_download refl refl refl)
getstatus-Requested manifest_sync c = (status_of_manifest refl refl refl)
getstatus-Requested DfuState.app_idle c = (status refl (λ e. cc) (λ e. cc) refl)
getstatus-Requested DfuState.app_detach c = (status refl (λ e. cc) (λ e. cc) refl)
getstatus-Requested idle c = (status refl (λ e. cc) (λ e. cc) refl)
getstatus-Requested dnbusy c = (status refl (λ e. cc) (λ e. cc) refl)
getstatus-Requested dnload_idle c = (status refl (λ e. cc) (λ e. cc) refl)
getstatus-Requested manifest c = (status refl (λ e. cc) (λ e. cc) refl)
getstatus-Requested DfuState.manifest_wait_reset c = (status refl (λ e. cc) (λ e. cc) refl)
getstatus-Requested upload_idle c = (status refl (λ e. cc) (λ e. cc) refl)
getstatus-Requested error c = (status refl (λ e. cc) (λ e. cc) refl)

clear-Requested :
    (s : DfuState) (c : Bool) → Requested (phase s c) (some clrstatus) (phase (clear_error s) c)
unfolding clear_error
clear-Requested error c = (clear refl refl refl)
clear-Requested DfuState.app_idle c = (not_in_error refl (λ e. cc) refl)
clear-Requested DfuState.app_detach c = (not_in_error refl (λ e. cc) refl)
clear-Requested idle c = (not_in_error refl (λ e. cc) refl)
clear-Requested dnload_sync c = (not_in_error refl (λ e. cc) refl)
clear-Requested dnbusy c = (not_in_error refl (λ e. cc) refl)
clear-Requested dnload_idle c = (not_in_error refl (λ e. cc) refl)
clear-Requested manifest_sync c = (not_in_error refl (λ e. cc) refl)
clear-Requested manifest c = (not_in_error refl (λ e. cc) refl)
clear-Requested DfuState.manifest_wait_reset c = (not_in_error refl (λ e. cc) refl)
clear-Requested upload_idle c = (not_in_error refl (λ e. cc) refl)

dnload-Requested :
    (req : SetupData) (len : ℕ) (d : Dfu) (c : Bool)
    → Requested (phase d.state c) (some dnload) (phase (dnload_request req len d).state c)
unfolding dnload_request
dnload-Requested req len d c = elim (Bool-cases (len == 0)) [
  | inl end ↦ rw end (download_end refl refl)
  | inr block ↦ rw block (download refl refl)
]

upload-Requested :
    (cfg : Config) (req : SetupData) (c : Bool) (d : Dfu) (m : Machine)
    → let r = upload_request cfg req c d m in
      Requested (phase d.state c) (some upload) (phase r.dfu.state r.complete)
unfolding upload_request
upload-Requested cfg req c d m = elim (Bool-cases (req.w_value == 0)) [
  | inl commands ↦ rw commands (uploads refl refl)
  | inr block ↦
      rw block
        (elim (Bool-cases (
          cfg.enable_dfu_upload
          && in_app cfg (block_addr d.prog.addr req.w_value) dfu_transfer_size)) [
            | inl inside ↦ rw inside (uploads refl refl)
            | inr out ↦ rw out (upload_refused refl refl)
          ])
]

request-Requested :
    (cfg : Config) (r : Option DfuReq) (req : SetupData) (len : ℕ) (c : Bool) (d : Dfu)
    (m : Machine)
    → let a = handle_request cfg r req len c d m in
      Requested (phase d.state c) r (phase a.dfu.state a.complete)
unfolding handle_request getstatus_request
request-Requested cfg (some dnload) req len c d m = dnload-Requested req len d c
request-Requested cfg (some upload) req len c d m = upload-Requested cfg req c d m
request-Requested cfg (some getstatus) req len c d m = getstatus-Requested d.state c
request-Requested cfg (some clrstatus) req len c d m = clear-Requested d.state c
request-Requested cfg (some getstate) req len c d m = state_read refl refl
request-Requested cfg (some abort) req len c d m = (aborts refl refl)
request-Requested cfg (some detach) req len c d m = (detaches refl refl)
request-Requested cfg none req len c d m = other refl refl

pub control_request-Requested :
    (cfg : Config) (req : SetupData) (len : ℕ) (c : Bool) (d : Dfu) (m : Machine)
    → let a = usbdfu_control_request cfg req len c d m in
      Requested (phase d.state c) (dfu_req req.b_request) (phase a.dfu.state a.complete)
unfolding usbdfu_control_request
control_request-Requested cfg req len c d m =
    request-Requested cfg (dfu_req req.b_request) req len c d m

after_complete-Completion :
    (s : DfuState) → Completion (phase s true) (phase (after_complete s) true)
after_complete-Completion dnbusy = completes refl refl refl
after_complete-Completion DfuState.app_idle = not_busy (λ e. cc) refl
after_complete-Completion DfuState.app_detach = not_busy (λ e. cc) refl
after_complete-Completion idle = not_busy (λ e. cc) refl
after_complete-Completion dnload_sync = not_busy (λ e. cc) refl
after_complete-Completion dnload_idle = not_busy (λ e. cc) refl
after_complete-Completion manifest_sync = not_busy (λ e. cc) refl
after_complete-Completion manifest = not_busy (λ e. cc) refl
after_complete-Completion DfuState.manifest_wait_reset = not_busy (λ e. cc) refl
after_complete-Completion upload_idle = not_busy (λ e. cc) refl
after_complete-Completion error = not_busy (λ e. cc) refl

pub complete-Completion :
    (cfg : Config) (d : Dfu) (m : Machine)
    → Completion (phase d.state true) (phase (usbdfu_getstatus_complete cfg d m).0.state true)
complete-Completion cfg d m =
    rw (usbdfu_getstatus_complete_state cfg d m) (after_complete-Completion d.state)
