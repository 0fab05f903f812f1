-- ===== src/Dfu/Download.antt =====
-- A download from the host's data stage to the flash, through src/dfu.cpp and src/flash.h.
use ln_dso_stm32_dfu_bootloa.Common.{
  ℕ, ◌+◌, ◌*◌, ◌/◌, ◌≤◌, ◌<◌, ◌≡◌, ◌≢◌, ◌⊎◌, true, false, some, half_at, ◌==◌, ◌∙◌, ap, arith, refl,
  Bool, Bool-cases, inl, inr,
}
use ln_dso_stm32_dfu_bootloa.Machine.{Machine}
use ln_dso_stm32_dfu_bootloa.Flash.Stored.{stored}
use ln_dso_stm32_dfu_bootloa.Config.{Config}
use ln_dso_stm32_dfu_bootloa.Flash.{
  flash_unlock, flash_lock, flash_program_buffer, ensure_erased, check_do_erase,
}
use ln_dso_stm32_dfu_bootloa.Flash.Stored.{
  stored-flash_unlock, stored-flash_lock, stored-ensure_erased,
}
use ln_dso_stm32_dfu_bootloa.Flash.Programmed.{
  flash_program_buffer_stores, flash_program_buffer_outside,
}
use ln_dso_stm32_dfu_bootloa.Dfu.Types.{dnbusy}
use ln_dso_stm32_dfu_bootloa.Dfu.{
  Dfu, block_addr, in_app, safewrite, write_block, run_download, complete_in,
  usbdfu_getstatus_complete,
}
use ln_dso_stm32_dfu_bootloa.Dfu.Guard.{prog-safewrite}

-- No sweep of the application's flash is due: none is ever made, or one has been made.
pub record IsSwept (cfg : Config) (d : Dfu) : Type 0 where
  pub swept : (cfg.enable_safewrite ≡ false) ⊎ (d.erased ≡ true)

stored-safewrite :
    (cfg : Config) (d : Dfu) (m : Machine) (a : ℕ)
    → IsSwept cfg d
    → stored (safewrite cfg d m).1.log a ≡ stored m.log a
unfolding safewrite check_do_erase
stored-safewrite cfg d m a s = elim (s.swept) [
  | inl off ↦ rw off refl
  | inr done ↦ rw done (ground arith)
]

-- After a block no sweep is due.
safewrite-IsSwept : (cfg : Config) (d : Dfu) (m : Machine) → IsSwept cfg (safewrite cfg d m).0
unfolding safewrite
safewrite-IsSwept cfg d m = elim (Bool-cases cfg.enable_safewrite) [
  | inl on ↦ record { swept = inr (simp on (check_do_erase_swept cfg d.erased m)) }
  | inr off ↦ record { swept = inl off }
]
  where
    check_do_erase_swept :
        (cfg : Config) (e : Bool) (m : Machine) → (check_do_erase cfg e m).0 ≡ true
    check_do_erase_swept cfg true m = unfold check_do_erase in refl
    check_do_erase_swept cfg false m = unfold check_do_erase in refl

-- The pending block is written to the address of its number.
pub record IsPending (cfg : Config) (d : Dfu) (base : ℕ) : Type 0 where
  pub busy : d.state ≡ dnbusy
  pub numbered : d.prog.blocknum ≢ 0
  pub address : block_addr d.prog.addr d.prog.blocknum ≡ base
  pub passes : in_app cfg base d.prog.len ≡ true
  pub fits : base + d.prog.len ≤ 0x100000000

module _ (cfg : Config) (d : Dfu) (m : Machine) (base : ℕ) (p : IsPending cfg d base) where
  -- The machine before and after the programming.
  before : Machine
  before = ensure_erased base (safewrite cfg d (flash_unlock false m)).1

  completed :
      (usbdfu_getstatus_complete cfg d m).1
      ≡ flash_lock (flash_program_buffer base d.prog.buf d.prog.len before)
  unfolding usbdfu_getstatus_complete before
  completed = ap (λ s. (complete_in cfg s d m).1) p.busy ∙ busy_case
    where
      written :
          (write_block cfg d (flash_unlock false m)).1
          ≡ flash_program_buffer base d.prog.buf d.prog.len before
      written =
          unfold write_block in
          rw (prog-safewrite cfg d (flash_unlock false m), p.address, p.passes)

      not_command : (d.prog.blocknum == 0) ≡ false
      not_command = ground (arith, p.numbered)

      busy_case :
          (complete_in cfg dnbusy d m).1
          ≡ flash_lock (flash_program_buffer base d.prog.buf d.prog.len before)
      busy_case = unfold complete_in run_download in rw (not_command, written)

  pub complete_prog : (usbdfu_getstatus_complete cfg d m).0.prog ≡ d.prog
  unfolding usbdfu_getstatus_complete
  complete_prog = ap (λ s. (complete_in cfg s d m).0.prog) p.busy ∙ busy_case
    where
      not_command : (d.prog.blocknum == 0) ≡ false
      not_command = ground (arith, p.numbered)

      busy_case : (complete_in cfg dnbusy d m).0.prog ≡ d.prog
      busy_case =
          unfold complete_in run_download write_block in
          rw not_command (prog-safewrite cfg d (flash_unlock false m))

  pub complete-IsSwept : IsSwept cfg (usbdfu_getstatus_complete cfg d m).0
  unfolding usbdfu_getstatus_complete
  complete-IsSwept = record {
    swept =
        rw (ap (λ s. (complete_in cfg s d m).0.erased) p.busy ∙ busy_case)
          ((safewrite-IsSwept cfg d (flash_unlock false m)).swept);
  }
    where
      not_command : (d.prog.blocknum == 0) ≡ false
      not_command = ground (arith, p.numbered)

      busy_case :
          (complete_in cfg dnbusy d m).0.erased ≡ (safewrite cfg d (flash_unlock false m)).0.erased
      busy_case = unfold complete_in run_download write_block in rw not_command refl

  stored-before :
      (a : ℕ) → IsSwept cfg d → base / 1024 ≢ a / 1024 → stored before.log a ≡ stored m.log a
  unfolding before
  stored-before a s other =
      stored-ensure_erased base _ a other
      ∙ stored-safewrite cfg d _ a s
      ∙ stored-flash_unlock false m a

  -- The completion of a pending block stores every whole half-word of `prog.buf` at its address.
  pub complete_stores :
      (k : ℕ)
      → k < d.prog.len / 2
      → stored (usbdfu_getstatus_complete cfg d m).1.log (base + 2 * k)
        ≡ some (half_at d.prog.buf (2 * k))
  complete_stores k lt = rw completed (
      stored-flash_lock _ _
      ∙ flash_program_buffer_stores base d.prog.buf d.prog.len k before p.fits lt)

  pub complete_outside :
      (a : ℕ)
      → IsSwept cfg d
      → base / 1024 ≢ a / 1024
      → (a < base) ⊎ (base + 2 * (d.prog.len / 2) ≤ a)
      → stored (usbdfu_getstatus_complete cfg d m).1.log a ≡ stored m.log a
  complete_outside a s other out = rw completed (
      stored-flash_lock _ _
      ∙ flash_program_buffer_outside base d.prog.buf d.prog.len a before p.fits out
      ∙ stored-before a s other)
