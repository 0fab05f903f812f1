-- ===== src/Dfu/Guard.antt =====
-- The address checks of `usbdfu_getstatus_complete` in src/dfu.cpp: which addresses they let
-- through, and what the DFU commands do to the flash of the boot loader.
use ln_dso_stm32_dfu_bootloa.Common.{
  ℕ, ◌+◌, ◌≤◌, ◌<◌, ◌≡◌, ◌↔◌, refl, true, false, get_or, word_at, ◌==◌, if◌then◌else◌, arith,
  Bool-cases, inl, inr,
}
use ln_dso_stm32_dfu_bootloa.Machine.{Machine}
use ln_dso_stm32_dfu_bootloa.Config.{Config, IsSound}
use ln_dso_stm32_dfu_bootloa.Flash.{flash_lock, flash_cr_lock, ensure_erased, flash_program_buffer}
use ln_dso_stm32_dfu_bootloa.Flash.Safe.{
  InApp, AllSafe, flash_unlock-AllSafe, set_cr-AllSafe, ensure_erased-AllSafe,
  flash_program_buffer-AllSafe,
}
use ln_dso_stm32_dfu_bootloa.Flash.Sweep.{check_do_erase-AllSafe}
use ln_dso_stm32_dfu_bootloa.Dfu.Types.{DfuState, dnbusy}
use ln_dso_stm32_dfu_bootloa.Dfu.{
  Dfu, block_addr, in_app, cmd_erase, cmd_setaddr, dfu_transfer_size, safewrite, erase_command,
  write_block, run_download, complete_in, usbdfu_getstatus_complete,
}

-- The address that the pending command erases or programs.
abbrev pub target : Dfu → ℕ
target d =
    if d.prog.blocknum == 0 then word_at d.prog.buf 1 else block_addr d.prog.addr d.prog.blocknum

-- Where the sum does not wrap, the check lets through exactly the application's flash.
pub in_app_iff_InApp :
    (cfg : Config) (base n : ℕ)
    → base + n < 0x100000000
    → (in_app cfg base n ≡ true) ↔ InApp cfg base n
in_app_iff_InApp cfg base n b = (λ e. ground arith, λ i. ground arith)

-- Where the sum wraps, the check passes although the bytes lie outside the application's flash.
pub in_app_wraps :
    (cfg : Config) (base n : ℕ)
    → IsSound cfg
    → n ≤ dfu_transfer_size
    → base < 0x100000000
    → 0x100000000 ≤ base + n
    → (in_app cfg base n ≡ true) × ¬ InApp cfg base n
in_app_wraps cfg base n s small b w = ground arith

pub prog-safewrite : (cfg : Config) (d : Dfu) (m : Machine) → (safewrite cfg d m).0.prog ≡ d.prog
unfolding safewrite
prog-safewrite cfg d m = ground arith

module _ (cfg : Config) (s : IsSound cfg) where
  safewrite-AllSafe : (d : Dfu) (m : Machine) → AllSafe cfg m → AllSafe cfg (safewrite cfg d m).1
  unfolding safewrite
  safewrite-AllSafe d m h = elim (Bool-cases cfg.enable_safewrite) [
    | inl on ↦ simp on (check_do_erase-AllSafe cfg d.erased m s h)
    | inr off ↦ simp off h
  ]

  erase_command-AllSafe :
      (d : Dfu) (m : Machine)
      → word_at d.prog.buf 1 + 1024 < 0x100000000
      → AllSafe cfg m
      → AllSafe cfg (erase_command cfg d m).1
  unfolding erase_command
  erase_command-AllSafe d m b h =
      rw (prog-safewrite cfg d m) (elim (Bool-cases (in_app cfg (word_at d.prog.buf 1) 1024)) [
        | inl passed ↦ rw passed (
            ensure_erased-AllSafe cfg _ _ (omega (arith, (in_app_iff_InApp cfg _ 1024 b).0 passed))
              (safewrite-AllSafe d m h))
        | inr out ↦ rw out (safewrite-AllSafe d m h)
      ])

  write_block-AllSafe :
      (d : Dfu) (m : Machine)
      → 0 < d.prog.len
      → block_addr d.prog.addr d.prog.blocknum + d.prog.len < 0x100000000
      → AllSafe cfg m
      → AllSafe cfg (write_block cfg d m).1
  unfolding write_block
  write_block-AllSafe d m pos b h =
      rw (prog-safewrite cfg d m)
        (elim (Bool-cases (in_app cfg (block_addr d.prog.addr d.prog.blocknum) d.prog.len)) [
          | inl passed ↦ rw passed (programmed ((in_app_iff_InApp cfg _ d.prog.len b).0 passed))
          | inr out ↦ rw out (safewrite-AllSafe d m h)
        ])
    where
      programmed :
          InApp cfg (block_addr d.prog.addr d.prog.blocknum) d.prog.len
          → AllSafe cfg (
              flash_program_buffer
                (block_addr d.prog.addr d.prog.blocknum)
                d.prog.buf
                d.prog.len
                (ensure_erased (block_addr d.prog.addr d.prog.blocknum) (safewrite cfg d m).1))
      programmed i =
          flash_program_buffer-AllSafe cfg _ _ _ _ i
            (ensure_erased-AllSafe cfg _ _ (omega arith) (safewrite-AllSafe d m h))

  run_download-AllSafe :
      (d : Dfu) (m : Machine)
      → 0 < d.prog.len
      → d.prog.len ≤ dfu_transfer_size
      → target d + dfu_transfer_size < 0x100000000
      → AllSafe cfg m
      → AllSafe cfg (run_download cfg d m).1
  unfolding run_download
  run_download-AllSafe d m pos small b h = elim (Bool-cases (d.prog.blocknum == 0)) [
    | inl command ↦ rw command (elim (Bool-cases (get_or d.prog.buf 0 0 == cmd_erase)) [
      | inl erase ↦ rw erase (erase_command-AllSafe d m (ground arith) h)
      | inr other ↦ rw other (elim (Bool-cases (get_or d.prog.buf 0 0 == cmd_setaddr)) [
        | inl set ↦ rw set h
        | inr none ↦ rw none h
      ])
    ])
    | inr block ↦ rw block (write_block-AllSafe d m pos (ground arith) h)
  ]

  -- In a sound configuration, after safe accesses, in any state, with a pending command of at
  -- most 1024 bytes that is not empty if it is executed and whose bytes stay below the top of
  -- the address space, the completion of a GETSTATUS request makes safe accesses only: it
  -- stores half-words only in the application's flash and in the ports' registers and starts an
  -- erase only for a page of the application.
  pub usbdfu_getstatus_complete-AllSafe :
      (d : Dfu) (m : Machine)
      → (d.state ≡ dnbusy → 0 < d.prog.len)
      → d.prog.len ≤ dfu_transfer_size
      → target d + dfu_transfer_size < 0x100000000
      → AllSafe cfg m
      → AllSafe cfg (usbdfu_getstatus_complete cfg d m).1
  unfolding usbdfu_getstatus_complete
  usbdfu_getstatus_complete-AllSafe d m pos small b h = by_state d.state pos
    where
      by_state :
          (s : DfuState) → (s ≡ dnbusy → 0 < d.prog.len) → AllSafe cfg (complete_in cfg s d m).1
      by_state dnbusy p =
          unfold complete_in flash_lock in
          set_cr-AllSafe cfg flash_cr_lock _
            (run_download-AllSafe d _ (p refl) small b (flash_unlock-AllSafe cfg false m h))
      by_state _ p = unfold complete_in in h
