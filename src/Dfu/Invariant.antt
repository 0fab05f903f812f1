-- ===== src/Dfu/Invariant.antt =====
-- The invariant of the DFU globals of src/dfu.cpp, and that every request and every completion
-- keeps it.
use ln_dso_stm32_dfu_bootloa.Common.{
  ℕ, ◌≤◌, ◌<◌, ◌≡◌, ◌⊎◌, Bool, false, Option, some, length, length-set, length-overlay, arith, ◌∙◌,
  [], ◌∷◌,
}
use ln_dso_stm32_dfu_bootloa.Machine.{Machine}
use ln_dso_stm32_dfu_bootloa.Config.{Config}
use ln_dso_stm32_dfu_bootloa.Flash.{flash_unlock}
use ln_dso_stm32_dfu_bootloa.Stubs.{length-memcpy}
use ln_dso_stm32_dfu_bootloa.Dfu.Types.{
  DfuReq, dnload, upload, getstatus, getstate, dfu_req, DfuState, dnload_sync, dnbusy, state_code,
  SetupData,
}
use ln_dso_stm32_dfu_bootloa.Dfu.{
  Dfu, dfu_transfer_size, cmd_setaddr, cmd_erase, block_addr, usbdfu_getstatus, safewrite,
  erase_command, setaddr_command, write_block, run_download, complete_in, usbdfu_getstatus_complete,
}
use ln_dso_stm32_dfu_bootloa.Dfu.Requests.{
  load_bytes, dnload_request, upload_request, status_answer, getstatus_request, handle_request,
  usbdfu_control_request,
}

-- Both buffers have their size, the pending length fits, and a pending download is not empty.
pub record IsValid (d : Dfu) : Type 0 where
  pub buffer_size : length d.buffer ≡ dfu_transfer_size
  pub prog_size : length d.prog.buf ≡ dfu_transfer_size
  pub len_fits : d.prog.len ≤ dfu_transfer_size
  pub pending : (d.state ≡ dnload_sync) ⊎ (d.state ≡ dnbusy) → 0 < d.prog.len

dnload_request-IsValid :
    (req : SetupData) (len : ℕ) (d : Dfu) → IsValid d → IsValid (dnload_request req len d)
unfolding dnload_request
dnload_request-IsValid req len d v = ground (
  arith,
  length-memcpy d.prog.buf d.buffer len,
  length-memcpy d.prog.buf d.buffer dfu_transfer_size,
)

upload_request-IsValid :
    (cfg : Config) (req : SetupData) (c : Bool) (d : Dfu) (m : Machine)
    → IsValid d
    → IsValid (upload_request cfg req c d m).dfu
unfolding upload_request
upload_request-IsValid cfg req c d m v = ground (
  arith,
  length-overlay d.buffer 0 (0 ∷ cmd_setaddr ∷ cmd_erase ∷ []),
  length-overlay d.buffer 0 (load_bytes dfu_transfer_size (block_addr d.prog.addr req.w_value) m).0,
)

pending-getstatus :
    (s : DfuState)
    → ((usbdfu_getstatus s).2 ≡ dnload_sync) ⊎ ((usbdfu_getstatus s).2 ≡ dnbusy)
    → (s ≡ dnload_sync) ⊎ (s ≡ dnbusy)
unfolding usbdfu_getstatus
pending-getstatus s h = ground arith

getstatus_request-IsValid : (d : Dfu) → IsValid d → IsValid (getstatus_request d)
unfolding getstatus_request
getstatus_request-IsValid d v =
    let q = usbdfu_getstatus d.state in
    record {
      buffer_size = length-overlay d.buffer 0 (status_answer q.0 q.1 q.2) ∙ v.buffer_size;
      prog_size = v.prog_size;
      len_fits = v.len_fits;
      pending = λ h. v.pending (pending-getstatus d.state h);
    }

handle_request-IsValid :
    (cfg : Config) (r : Option DfuReq) (req : SetupData) (len : ℕ) (c : Bool) (d : Dfu)
    (m : Machine)
    → IsValid d
    → IsValid (handle_request cfg r req len c d m).dfu
unfolding handle_request
handle_request-IsValid cfg (some dnload) req len c d m v = dnload_request-IsValid req len d v
handle_request-IsValid cfg (some upload) req len c d m v = upload_request-IsValid cfg req c d m v
handle_request-IsValid cfg (some getstatus) req len c d m v = getstatus_request-IsValid d v
handle_request-IsValid cfg (some getstate) req len c d m v =
    ground (arith, length-set d.buffer 0 (state_code d.state))
handle_request-IsValid cfg _ req len c d m v = ground arith

-- Every DFU request, with any setup packet and any length, keeps the invariant.
pub usbdfu_control_request-IsValid :
    (cfg : Config) (req : SetupData) (len : ℕ) (c : Bool) (d : Dfu) (m : Machine)
    → IsValid d
    → IsValid (usbdfu_control_request cfg req len c d m).dfu
unfolding usbdfu_control_request
usbdfu_control_request-IsValid cfg req len c d m v =
    handle_request-IsValid cfg (dfu_req req.b_request) req len c d m v

-- The fields of the DFU record that running a download leaves alone.
record Kept (d d' : Dfu) : Type 0 where
  state : d'.state ≡ d.state
  buf : d'.prog.buf ≡ d.prog.buf
  len : d'.prog.len ≡ d.prog.len
  buffer : d'.buffer ≡ d.buffer

run_download-Kept : (cfg : Config) (d : Dfu) (m : Machine) → Kept d (run_download cfg d m).0
unfolding run_download erase_command setaddr_command write_block safewrite
run_download-Kept cfg d m = ground arith

complete_in-IsValid :
    (cfg : Config) (s : DfuState) (d : Dfu) (m : Machine)
    → IsValid d
    → IsValid (complete_in cfg s d m).0
unfolding complete_in
complete_in-IsValid cfg dnbusy d m v =
    ground (arith, run_download-Kept cfg d (flash_unlock false m))
complete_in-IsValid cfg _ d m v = v

-- The completion of a GETSTATUS request keeps the invariant.
pub usbdfu_getstatus_complete-IsValid :
    (cfg : Config) (d : Dfu) (m : Machine)
    → IsValid d
    → IsValid (usbdfu_getstatus_complete cfg d m).0
unfolding usbdfu_getstatus_complete
usbdfu_getstatus_complete-IsValid cfg d m v = complete_in-IsValid cfg d.state d m v
