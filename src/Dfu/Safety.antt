-- ===== src/Dfu/Safety.antt =====
-- The boot loader's flash over a whole DFU session of src/dfu.cpp, and where its check fails.
use ln_dso_stm32_dfu_bootloa.Common.{
  ◌+◌, ◌≤◌, ◌<◌, ◌≡◌, inr, true, false, List, [], ◌∷◌, ◌∙◌, word_at, length-overlay, arith,
}
use ln_dso_stm32_dfu_bootloa.Machine.{Machine}
use ln_dso_stm32_dfu_bootloa.Config.{Config, IsSound}
use ln_dso_stm32_dfu_bootloa.Flash.{flash_erase_page, flash_page_is_erased, ensure_erased}
use ln_dso_stm32_dfu_bootloa.Flash.Safe.{InApp, IsSafe, AllSafe}
use ln_dso_stm32_dfu_bootloa.Dfu.{Dfu, dfu_transfer_size, erase_command, safewrite, in_app}
use ln_dso_stm32_dfu_bootloa.Dfu.Guard.{
  target, in_app_wraps, prog-safewrite, usbdfu_getstatus_complete-AllSafe,
}
use ln_dso_stm32_dfu_bootloa.Dfu.Graph.{usbdfu_control_request_only_loads}
use ln_dso_stm32_dfu_bootloa.Dfu.Invariant.{
  IsValid, usbdfu_control_request-IsValid, usbdfu_getstatus_complete-IsValid,
}
use ln_dso_stm32_dfu_bootloa.Dfu.Session.{Event, receive, request, complete, step, run}

step-IsValid :
    (cfg : Config) (e : Event) (d : Dfu) (m : Machine) → IsValid d → IsValid (step cfg e d m).0
unfolding step
step-IsValid cfg (receive bytes) d m v = record {
  buffer_size = length-overlay d.buffer 0 bytes ∙ v.buffer_size;
  prog_size = v.prog_size;
  len_fits = v.len_fits;
  pending = v.pending;
}
step-IsValid cfg (request req len) d m v = usbdfu_control_request-IsValid cfg req len false d m v
step-IsValid cfg complete d m v = usbdfu_getstatus_complete-IsValid cfg d m v

-- Every session keeps the invariant of the DFU globals.
pub run-IsValid :
    (cfg : Config) (es : List Event) (d : Dfu) (m : Machine)
    → IsValid d
    → IsValid (run cfg es d m).0
unfolding run
run-IsValid cfg [] d m v = v
run-IsValid cfg (e ∷ es) d m v =
    run-IsValid cfg es (step cfg e d m).0 (step cfg e d m).1 (step-IsValid cfg e d m v)

-- At every completion the pending command's bytes lie below the top of the address space.
abbrev pub StaysBelow : Config → List Event → Dfu → Machine → Type 0
StaysBelow cfg [] d m = Unit
StaysBelow cfg (receive bytes ∷ es) d m =
    StaysBelow cfg es (step cfg (receive bytes) d m).0 (step cfg (receive bytes) d m).1
StaysBelow cfg (request req len ∷ es) d m =
    StaysBelow cfg es (step cfg (request req len) d m).0 (step cfg (request req len) d m).1
StaysBelow cfg (complete ∷ es) d m =
    (target d + dfu_transfer_size < 0x100000000)
    × StaysBelow cfg es (step cfg complete d m).0 (step cfg complete d m).1

module _ (cfg : Config) (s : IsSound cfg) where
  -- In a sound configuration, from globals that satisfy the invariant and after safe accesses,
  -- a session of any length, in which the host sends what it likes in any order, makes safe
  -- accesses only, if at every completion the pending bytes stay below the top of the address
  -- space: it erases and programs nothing but the application's flash.
  pub run-AllSafe :
      (es : List Event) (d : Dfu) (m : Machine)
      → IsValid d
      → StaysBelow cfg es d m
      → AllSafe cfg m
      → AllSafe cfg (run cfg es d m).1
  unfolding run
  run-AllSafe [] d m v b h = h
  run-AllSafe (receive bytes ∷ es) d m v b h =
      run-AllSafe es (step cfg (receive bytes) d m).0 (step cfg (receive bytes) d m).1
        (step-IsValid cfg (receive bytes) d m v) b (unfold step in h)
  run-AllSafe (request req len ∷ es) d m v b h =
      run-AllSafe es (step cfg (request req len) d m).0 (step cfg (request req len) d m).1
        (step-IsValid cfg (request req len) d m v) b
        (unfold step in
          usbdfu_control_request_only_loads (IsSafe cfg) (λ w a. tt) cfg req len false d m h)
  run-AllSafe (complete ∷ es) d m v b h =
      run-AllSafe es (step cfg complete d m).0 (step cfg complete d m).1
        (step-IsValid cfg complete d m v) b.1
        (unfold step in
          usbdfu_getstatus_complete-AllSafe cfg s d m (λ e. v.pending (inr e)) v.len_fits b.0 h)

  -- In a sound configuration the check of the ERASE command adds the page size to the address
  -- as a uint32_t: for an address in the last 1024 bytes of the address space the sum wraps,
  -- the check passes, and a page that does not read as erased is erased although it lies
  -- outside the application's flash.
  pub erase_command_wraps :
      (d : Dfu) (m : Machine)
      → word_at d.prog.buf 1 < 0x100000000
      → 0x100000000 ≤ word_at d.prog.buf 1 + dfu_transfer_size
      → (flash_page_is_erased (word_at d.prog.buf 1) (safewrite cfg d m).1).0 ≡ false
      → ((erase_command cfg d m).1
          ≡ flash_erase_page
              (word_at d.prog.buf 1)
              (flash_page_is_erased (word_at d.prog.buf 1) (safewrite cfg d m).1).1)
        × ¬ InApp cfg (word_at d.prog.buf 1) 1
  unfolding erase_command ensure_erased
  erase_command_wraps d m top wraps not_erased =
      (rw (prog-safewrite cfg d m, passes, not_erased), λ i. ground arith)
    where
      passes : in_app cfg (word_at d.prog.buf 1) dfu_transfer_size ≡ true
      passes =
          (in_app_wraps cfg (word_at d.prog.buf 1) dfu_transfer_size s (omega arith) top wraps).0
