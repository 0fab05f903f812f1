-- ===== src/Dfu/Status.antt =====
-- The answers to DFU_GETSTATUS and DFU_GETSTATE in src/dfu.cpp, read back as a host reads them.
use ln_dso_stm32_dfu_bootloa.Common.{
  ℕ, zero, suc, ◌+◌, ◌*◌, ◌≤◌, ◌≡◌, refl, Bool, true, Option, none, some, get_or, length, overlay,
  List, ap, u8, ◌/◌, ◌<◌, ◌∙◌, get_or-overlay, arith,
}
use ln_dso_stm32_dfu_bootloa.Machine.{Machine}
use ln_dso_stm32_dfu_bootloa.Config.{Config}
use ln_dso_stm32_dfu_bootloa.Dfu.Types.{
  DfuState, app_idle, app_detach, idle, dnload_sync, dnbusy, dnload_idle, manifest_sync, manifest,
  manifest_wait_reset, upload_idle, error, state_code, SetupData, dfu_status_ok,
  dfu_status_err_firmware,
}
use ln_dso_stm32_dfu_bootloa.Dfu.{Dfu, usbdfu_getstatus}
use ln_dso_stm32_dfu_bootloa.Dfu.Requests.{
  status_answer, getstatus_request, handle_request, usbdfu_control_request,
}

-- the host's reading of a state byte
abbrev pub decode_state : ℕ → Option DfuState
decode_state zero = some app_idle
decode_state (suc zero) = some app_detach
decode_state (suc (suc zero)) = some idle
decode_state (suc (suc (suc zero))) = some dnload_sync
decode_state (suc (suc (suc (suc zero)))) = some dnbusy
decode_state (suc (suc (suc (suc (suc zero))))) = some dnload_idle
decode_state (suc (suc (suc (suc (suc (suc zero)))))) = some manifest_sync
decode_state (suc (suc (suc (suc (suc (suc (suc zero))))))) = some manifest
decode_state (suc (suc (suc (suc (suc (suc (suc (suc zero)))))))) = some manifest_wait_reset
decode_state (suc (suc (suc (suc (suc (suc (suc (suc (suc zero))))))))) = some upload_idle
decode_state (suc (suc (suc (suc (suc (suc (suc (suc (suc (suc zero)))))))))) = some error
decode_state (suc (suc (suc (suc (suc (suc (suc (suc (suc (suc (suc n))))))))))) = none

decode_state-state_code : (s : DfuState) → decode_state (state_code s) ≡ some s
decode_state-state_code app_idle = refl
decode_state-state_code _ = refl

-- The fields of a status answer.
abbrev pub b_status : Dfu → ℕ
b_status d = get_or d.buffer 0 0

abbrev pub bw_poll_timeout : Dfu → ℕ
bw_poll_timeout d = get_or d.buffer 1 0 + 256 * get_or d.buffer 2 0 + 65536 * get_or d.buffer 3 0

abbrev pub b_state : Dfu → ℕ
b_state d = get_or d.buffer 4 0

-- The state that a GETSTATUS request leads to.
abbrev pub after_getstatus : DfuState → DfuState
after_getstatus dnload_sync = dnbusy
after_getstatus manifest_sync = manifest
after_getstatus s = s

-- The status and the timeout of the answer.
abbrev pub answer_status : DfuState → ℕ
answer_status error = dfu_status_err_firmware
answer_status s = dfu_status_ok

abbrev pub answer_timeout : DfuState → ℕ
answer_timeout dnload_sync = 100
answer_timeout s = 0

usbdfu_getstatus_lem :
    (s : DfuState) → usbdfu_getstatus s ≡ (answer_status s, answer_timeout s, after_getstatus s)
unfolding usbdfu_getstatus
usbdfu_getstatus_lem app_idle = refl
usbdfu_getstatus_lem _ = refl

getstatus_request_lem :
    (d : Dfu)
    → getstatus_request d ≡ record d {
      state = after_getstatus d.state;
      buffer = overlay d.buffer 0 (
          status_answer (answer_status d.state) (answer_timeout d.state) (after_getstatus d.state));
    }
unfolding getstatus_request
getstatus_request_lem d = rw (usbdfu_getstatus_lem d.state)

-- Byte `k` of a status answer in the buffer.
answer_byte :
    (buffer : List ℕ) (status timeout : ℕ) (s : DfuState) (k : ℕ)
    → k < 6
    → 6 ≤ length buffer
    → get_or (overlay buffer 0 (status_answer status timeout s)) k 0
      ≡ get_or (status_answer status timeout s) k 0
answer_byte buffer status timeout s k lt fits =
    get_or-overlay buffer 0 (status_answer status timeout s) k k 0 (omega arith) lt fits

timeout_bytes :
    (s : DfuState)
    → u8 (answer_timeout s)
        + 256 * u8 (answer_timeout s / 256)
        + 65536 * u8 (answer_timeout s / 65536)
      ≡ answer_timeout s
timeout_bytes app_idle = refl
timeout_bytes _ = refl

answered :
    (d : Dfu)
    → 6 ≤ length d.buffer
    → let d' = getstatus_request d in
      (d'.state ≡ after_getstatus d.state)
      × (b_status d' ≡ answer_status d.state)
      × (bw_poll_timeout d' ≡ answer_timeout d.state)
      × (decode_state (b_state d') ≡ some (after_getstatus d.state))
      × (get_or d'.buffer 5 0 ≡ 0)
answered d fits = rw (getstatus_request_lem d) (
  refl,
  byte 0 (omega arith),
  rw (byte 1 (omega arith), byte 2 (omega arith), byte 3 (omega arith)) (timeout_bytes d.state),
  ap decode_state (byte 4 (omega arith)) ∙ decode_state-state_code (after_getstatus d.state),
  byte 5 (omega arith),
)
  where
    byte :
        (k : ℕ)
        → k < 6
        → get_or
            (overlay d.buffer 0 (
              status_answer
                (answer_status d.state)
                (answer_timeout d.state)
                (after_getstatus d.state)))
            k
            0
          ≡ get_or
              (status_answer
                (answer_status d.state)
                (answer_timeout d.state)
                (after_getstatus d.state))
              k
              0
    byte k lt =
        answer_byte d.buffer (answer_status d.state) (answer_timeout d.state)
          (after_getstatus d.state) k lt fits

-- A GETSTATUS request, whatever else is in its setup packet, is answered by six bytes if the
-- buffer has six: status errFIRMWARE in the error state and OK in every other one, a poll timeout
-- of 100 ms if a download is pending and of 0 otherwise, the code of the state that the request
-- leads to, and 0. It asks for the completion.
pub getstatus_request_answers :
    (cfg : Config) (req : SetupData) (len : ℕ) (c : Bool) (d : Dfu) (m : Machine)
    → req.b_request ≡ 3
    → 6 ≤ length d.buffer
    → let r = usbdfu_control_request cfg req len c d m in
      (r.len ≡ 6)
      × (r.complete ≡ true)
      × (r.dfu.state ≡ after_getstatus d.state)
      × (b_status r.dfu ≡ answer_status d.state)
      × (bw_poll_timeout r.dfu ≡ answer_timeout d.state)
      × (decode_state (b_state r.dfu) ≡ some (after_getstatus d.state))
      × (get_or r.dfu.buffer 5 0 ≡ 0)
unfolding usbdfu_control_request handle_request
getstatus_request_answers cfg req len c d m e b =
    let h = answered d b in simp e (refl, refl, h.0, h.1, h.2, h.3, h.4)
