-- ===== src/Dfu/Graph.antt =====
-- The state machine of `usbdfu_control_request` and `usbdfu_getstatus_complete` in src/dfu.cpp.
use ln_dso_stm32_dfu_bootloa.Common.{
  ℕ, zero, suc, ◌≡◌, ◌⊎◌, refl, Bool, Option, none, some, inl, inr, arith, u32, ◌+◌, ◌==◌,
  Bool-cases,
}
use ln_dso_stm32_dfu_bootloa.Machine.{Machine, Access, read, Width, byte, load}
use ln_dso_stm32_dfu_bootloa.Config.{Config}
use ln_dso_stm32_dfu_bootloa.Machine.Trace.{All}
use ln_dso_stm32_dfu_bootloa.Dfu.Types.{
  DfuReq, detach, dnload, upload, getstatus, clrstatus, getstate, abort, dfu_req, DfuState,
  app_idle, app_detach, idle, upload_idle, dnload_sync, dnbusy, dnload_idle, manifest_sync,
  manifest, manifest_wait_reset, error, SetupData,
}
use ln_dso_stm32_dfu_bootloa.Dfu.{
  Dfu, usbdfu_getstatus, complete_in, usbdfu_getstatus_complete, block_addr, dfu_transfer_size,
}
use ln_dso_stm32_dfu_bootloa.Dfu.Requests.{
  clear_error, dnload_request, upload_request, getstatus_request, handle_request,
  usbdfu_control_request, load_bytes,
}

-- Where each state of the machine can come from in one request.
abbrev pub Origin : Option DfuReq → DfuState → DfuState → Type 0
Origin r s dnbusy = (s ≡ dnbusy) ⊎ ((s ≡ dnload_sync) × (r ≡ some getstatus))
Origin r s manifest =
    (s ≡ manifest) ⊎ ((s ≡ manifest_sync) × (r ≡ some getstatus)) ⊎ (r ≡ some detach)
Origin r s error = (s ≡ error) ⊎ (r ≡ some upload)
Origin r s dnload_sync = (s ≡ dnload_sync) ⊎ (r ≡ some dnload)
Origin r s manifest_sync = (s ≡ manifest_sync) ⊎ (r ≡ some dnload)
Origin r s dnload_idle = s ≡ dnload_idle
Origin r s app_idle = s ≡ app_idle
Origin r s app_detach = s ≡ app_detach
Origin r s manifest_wait_reset = s ≡ manifest_wait_reset
Origin r s idle = (s ≡ idle) ⊎ ((s ≡ error) × (r ≡ some clrstatus)) ⊎ (r ≡ some abort)
Origin r s upload_idle = (s ≡ upload_idle) ⊎ (r ≡ some upload)

Origin-stay : (r : Option DfuReq) (s : DfuState) → Origin r s s
Origin-stay r app_idle = refl
Origin-stay r app_detach = refl
Origin-stay r idle = inl refl
Origin-stay r dnload_sync = inl refl
Origin-stay r dnbusy = inl refl
Origin-stay r dnload_idle = refl
Origin-stay r manifest_sync = inl refl
Origin-stay r manifest = inl refl
Origin-stay r manifest_wait_reset = refl
Origin-stay r upload_idle = inl refl
Origin-stay r error = inl refl

Origin-getstatus : (s : DfuState) → Origin (some getstatus) s (usbdfu_getstatus s).2
unfolding usbdfu_getstatus
Origin-getstatus dnload_sync = inr (refl, refl)
Origin-getstatus manifest_sync = inr (inl (refl, refl))
Origin-getstatus app_idle = refl
Origin-getstatus app_detach = refl
Origin-getstatus idle = inl refl
Origin-getstatus dnbusy = inl refl
Origin-getstatus dnload_idle = refl
Origin-getstatus manifest = inl refl
Origin-getstatus manifest_wait_reset = refl
Origin-getstatus upload_idle = inl refl
Origin-getstatus error = inl refl

Origin-clear : (s : DfuState) → Origin (some clrstatus) s (clear_error s)
unfolding clear_error
Origin-clear error = inr (inl (refl, refl))
Origin-clear app_idle = refl
Origin-clear app_detach = refl
Origin-clear idle = inl refl
Origin-clear dnload_sync = inl refl
Origin-clear dnbusy = inl refl
Origin-clear dnload_idle = refl
Origin-clear manifest_sync = inl refl
Origin-clear manifest = inl refl
Origin-clear manifest_wait_reset = refl
Origin-clear upload_idle = inl refl

Origin-dnload :
    (req : SetupData) (len : ℕ) (d : Dfu)
    → Origin (some dnload) d.state (dnload_request req len d).state
unfolding dnload_request
Origin-dnload req len d = elim (Bool-cases (len == 0)) [
  | inl leave ↦ rw leave (inr refl)
  | inr block ↦ rw block (inr refl)
]

Origin-upload :
    (cfg : Config) (req : SetupData) (c : Bool) (d : Dfu) (m : Machine)
    → Origin (some upload) d.state (upload_request cfg req c d m).dfu.state
Origin-upload cfg req c d m = elim (upload_state cfg req c d m) [
  | inl sent ↦ rw sent (inr refl)
  | inr refused ↦ rw refused (inr refl)
]
  where
    upload_state :
        (cfg : Config) (req : SetupData) (c : Bool) (d : Dfu) (m : Machine)
        → ((upload_request cfg req c d m).dfu.state ≡ upload_idle)
          ⊎ ((upload_request cfg req c d m).dfu.state ≡ error)
    upload_state cfg req c d m = unfold upload_request in ground arith

handle_request-Origin :
    (cfg : Config) (r : Option DfuReq) (req : SetupData) (len : ℕ) (c : Bool) (d : Dfu)
    (m : Machine)
    → Origin r d.state (handle_request cfg r req len c d m).dfu.state
unfolding handle_request getstatus_request
handle_request-Origin cfg (some dnload) req len c d m = Origin-dnload req len d
handle_request-Origin cfg (some upload) req len c d m = Origin-upload cfg req c d m
handle_request-Origin cfg (some getstatus) req len c d m = Origin-getstatus d.state
handle_request-Origin cfg (some clrstatus) req len c d m = Origin-clear d.state
handle_request-Origin cfg (some getstate) req len c d m = Origin-stay (some getstate) d.state
handle_request-Origin cfg (some abort) req len c d m = inr (inr refl)
handle_request-Origin cfg (some detach) req len c d m = inr (inr refl)
handle_request-Origin cfg none req len c d m = Origin-stay none d.state

-- A request leads to dfuDNBUSY only by GETSTATUS from dfuDNLOAD-SYNC, to dfuMANIFEST only by
-- GETSTATUS from dfuMANIFEST-SYNC or by DETACH, to dfuERROR and dfuUPLOAD-IDLE only by UPLOAD, to the
-- two sync states only by DNLOAD, to dfuIDLE only by CLRSTATUS from dfuERROR or by ABORT, and to any
-- other state never; otherwise the machine was there already.
pub usbdfu_control_request-Origin :
    (cfg : Config) (req : SetupData) (len : ℕ) (c : Bool) (d : Dfu) (m : Machine)
    → Origin (dfu_req req.b_request) d.state (usbdfu_control_request cfg req len c d m).dfu.state
unfolding usbdfu_control_request
usbdfu_control_request-Origin cfg req len c d m =
    handle_request-Origin cfg (dfu_req req.b_request) req len c d m

-- The state after a completion.
abbrev pub after_complete : DfuState → DfuState
after_complete dnbusy = dnload_idle
after_complete s = s

-- The completion of a GETSTATUS request goes from dfuDNBUSY to dfuDNLOAD-IDLE, whether or not the
-- pending command passes its check, and leaves every other state.
pub usbdfu_getstatus_complete_state :
    (cfg : Config) (d : Dfu) (m : Machine)
    → (usbdfu_getstatus_complete cfg d m).0.state ≡ after_complete d.state
unfolding usbdfu_getstatus_complete
usbdfu_getstatus_complete_state cfg d m = by_state d.state refl
  where
    by_state : (s : DfuState) → d.state ≡ s → (complete_in cfg s d m).0.state ≡ after_complete s
    by_state dnbusy e = unfold complete_in in refl
    by_state app_idle e = unfold complete_in in e
    by_state _ e = unfold complete_in in e

-- A property that every load has.
abbrev LoadsHave : (Access → Type 0) → Type 0
LoadsHave P = (w : Width) (a : ℕ) → P (read w a)

load_bytes-All :
    (P : Access → Type 0) (loads : LoadsHave P) (n addr : ℕ) (m : Machine)
    → All P m.log
    → All P (load_bytes n addr m).1.log
unfolding load_bytes load
load_bytes-All P loads zero addr m h = h
load_bytes-All P loads (suc n) addr m h =
    load_bytes-All P loads n (u32 (addr + 1)) (load byte addr m).1 (loads byte addr, h)

upload_request-All :
    (P : Access → Type 0) (loads : LoadsHave P) (cfg : Config) (req : SetupData) (c : Bool)
    (d : Dfu) (m : Machine)
    → All P m.log
    → All P (upload_request cfg req c d m).machine.log
unfolding upload_request
upload_request-All P loads cfg req c d m h =
    ground
      (arith, load_bytes-All P loads dfu_transfer_size (block_addr d.prog.addr req.w_value) m h)

handle_request-All :
    (P : Access → Type 0) (loads : LoadsHave P) (cfg : Config) (r : Option DfuReq) (req : SetupData)
    (len : ℕ) (c : Bool) (d : Dfu) (m : Machine)
    → All P m.log
    → All P (handle_request cfg r req len c d m).machine.log
unfolding handle_request
handle_request-All P loads cfg (some upload) req len c d m h =
    upload_request-All P loads cfg req c d m h
handle_request-All P loads cfg _ req len c d m h = h

-- A DFU request makes no access but loads: what holds of the accesses so far and of every load
-- holds of the accesses after it.
pub usbdfu_control_request_only_loads :
    (P : Access → Type 0) (loads : (w : Width) (a : ℕ) → P (read w a)) (cfg : Config)
    (req : SetupData) (len : ℕ) (c : Bool) (d : Dfu) (m : Machine)
    → All P m.log
    → All P (usbdfu_control_request cfg req len c d m).machine.log
unfolding usbdfu_control_request
usbdfu_control_request_only_loads P loads cfg req len c d m h =
    handle_request-All P loads cfg (dfu_req req.b_request) req len c d m h
