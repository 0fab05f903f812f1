-- ===== src/Dfu/Requests.antt =====
-- The requests of src/dfu.cpp: `usbdfu_control_request` with a handler for each request.
use ln_dso_stm32_dfu_bootloa.Common.{
  ℕ, zero, suc, ◌+◌, ◌/◌, Bool, true, ◌&&◌, List, [], ◌∷◌, Option, none, some, set, overlay, u8,
  u32, ltb, ◌==◌, if◌then◌else◌,
}
use ln_dso_stm32_dfu_bootloa.Machine.{Machine, byte, load}
use ln_dso_stm32_dfu_bootloa.Config.{Config}
use ln_dso_stm32_dfu_bootloa.Stubs.{memcpy}
use ln_dso_stm32_dfu_bootloa.Dfu.Types.{
  DfuReq, detach, dnload, upload, getstatus, clrstatus, getstate, abort, dfu_req, DfuState, idle,
  dnload_sync, manifest_sync, manifest, upload_idle, error, state_code, SetupData, ReturnCode,
  handled, next_callback,
}
use ln_dso_stm32_dfu_bootloa.Dfu.{
  cmd_setaddr, cmd_erase, dfu_transfer_size, Dfu, usbdfu_getstatus, block_addr, in_app,
}

-- the loads of `memcpy` from memory
unfoldable pub load_bytes : ℕ → ℕ → Machine → List ℕ × Machine
load_bytes zero addr m = ([], m)
load_bytes (suc n) addr m =
    let (v, m) = load byte addr m in
    let (rest, m) = load_bytes n (u32 (addr + 1)) m in (v ∷ rest, m)

-- What a request handler gives back: its return code, `*len`, whether `*complete` is set to
-- `usbdfu_getstatus_complete`, and the state.
pub record Reply : Type 0 where
  pub code : ReturnCode
  pub len : ℕ
  pub complete : Bool
  pub dfu : Dfu
  pub machine : Machine

unfoldable pub dnload_request : SetupData → ℕ → Dfu → Dfu
dnload_request req len d =
    if len == 0
    then record d { state = manifest_sync }
    else let n = if ltb dfu_transfer_size len then dfu_transfer_size else len in
      record d {
        state = dnload_sync;
        prog = record (d.prog) {
          blocknum = req.w_value;
          len = n;
          buf = memcpy d.prog.buf d.buffer n;
        };
      }

unfoldable pub clear_error : DfuState → DfuState
clear_error error = idle
clear_error s = s

unfoldable pub upload_request : Config → SetupData → Bool → Dfu → Machine → Reply
upload_request cfg req c d m =
    if req.w_value == 0
    then give 3
        (record d {
          state = upload_idle;
          buffer = overlay d.buffer 0 (0 ∷ cmd_setaddr ∷ cmd_erase ∷ []);
        })
        m
    else if cfg.enable_dfu_upload && in_app cfg baseaddr dfu_transfer_size
    then (let (bytes, m') = load_bytes dfu_transfer_size baseaddr m in
        give dfu_transfer_size (record d { state = upload_idle; buffer = overlay d.buffer 0 bytes })
          m')
    else give 0 (record d { state = error }) m
  where
    baseaddr : ℕ
    baseaddr = block_addr d.prog.addr req.w_value

    give : ℕ → Dfu → Machine → Reply
    give n d' m' = record { code = handled; len = n; complete = c; dfu = d'; machine = m' }

-- The six bytes of the answer; the last one is an unused string index.
abbrev pub status_answer : ℕ → ℕ → DfuState → List ℕ
status_answer status timeout s =
    status ∷ u8 timeout ∷ u8 (timeout / 256) ∷ u8 (timeout / 65536) ∷ state_code s ∷ 0 ∷ []

unfoldable pub getstatus_request : Dfu → Dfu
getstatus_request d =
    let (status, timeout, s) = usbdfu_getstatus d.state in
    record d { state = s; buffer = overlay d.buffer 0 (status_answer status timeout s) }

-- The switch over the request; `c` is what the caller's `*complete` holds already.
unfoldable pub handle_request :
    Config → Option DfuReq → SetupData → ℕ → Bool → Dfu → Machine → Reply
unfolding clear_error
handle_request cfg (some dnload) req len c d m = record {
  code = handled;
  len = len;
  complete = c;
  dfu = dnload_request req len d;
  machine = m;
}
handle_request cfg (some clrstatus) req len c d m = record {
  code = handled;
  len = len;
  complete = c;
  dfu = record d { state = clear_error d.state };
  machine = m;
}
handle_request cfg (some abort) req len c d m = record {
  code = handled;
  len = len;
  complete = c;
  dfu = record d { state = idle };
  machine = m;
}
handle_request cfg (some detach) req len c d m = record {
  code = handled;
  len = len;
  complete = c;
  dfu = record d { state = manifest };
  machine = m;
}
handle_request cfg (some upload) req len c d m = upload_request cfg req c d m
handle_request cfg (some getstatus) req len c d m = record {
  code = handled;
  len = 6;
  complete = true;
  dfu = getstatus_request d;
  machine = m;
}
handle_request cfg (some getstate) req len c d m = record {
  code = handled;
  len = 1;
  complete = c;
  dfu = record d { buffer = set d.buffer 0 (state_code d.state) };
  machine = m;
}
handle_request cfg none req len c d m = record {
  code = next_callback;
  len = len;
  complete = c;
  dfu = d;
  machine = m;
}

unfoldable pub usbdfu_control_request : Config → SetupData → ℕ → Bool → Dfu → Machine → Reply
usbdfu_control_request cfg req len c d m = handle_request cfg (dfu_req req.b_request) req len c d m
