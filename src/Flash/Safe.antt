-- ===== src/Flash/Safe.antt =====
-- Which accesses leave the boot loader's flash alone, and that the routines of src/flash.h make no
-- others.
use ln_dso_stm32_dfu_bootloa.Common.{
  ℕ, zero, suc, ◌+◌, ◌*◌, ◌/◌, ◌≤◌, ◌<◌, ◌≡◌, ◌⊎◌, inl, refl, Bool, true, false, List, u32, arith,
  ◌≢◌,
}
use ln_dso_stm32_dfu_bootloa.Machine.{
  Machine, Access, read, write, byte, half, word, load, store, set_bits, keep_bits,
}
use ln_dso_stm32_dfu_bootloa.Machine.Trace.{All, poll-All}
use ln_dso_stm32_dfu_bootloa.Config.{Config, start_addr, end_addr}
use ln_dso_stm32_dfu_bootloa.Flash.{
  flash_ar, flash_cr, flash_keyr, flash_optkeyr, flash_cr_lock, words_per_page, flash_unlock,
  flash_wait, flash_erase_page, words_erased, flash_page_is_erased, program_halves,
  flash_program_buffer, ensure_erased,
}

-- `n` bytes from `a` on lie in the application's part of the flash.
abbrev pub InApp : Config → ℕ → ℕ → Type 0
InApp cfg a n = (start_addr cfg ≤ a) × (a + n ≤ end_addr cfg)

-- A half-word is stored only in the application's flash or in a register of the ports, a word only in
-- a peripheral's register, and the address of the page that the flash controller is told to erase is
-- one of the application's.
abbrev pub IsSafe : Config → Access → Type 0
IsSafe cfg (read w a) = Unit
IsSafe cfg (write byte a v) = ⊥
IsSafe cfg (write half a v) = InApp cfg a 2 ⊎ (0x40010000 ≤ a) × (a < 0x40020000)
IsSafe cfg (write word a v) = (0x40000000 ≤ a) × (a ≡ flash_ar → InApp cfg v 1)

abbrev pub AllSafe : Config → Machine → Type 0
AllSafe cfg m = All (IsSafe cfg) m.log

module _ (cfg : Config) where
  pub flash_wait-AllSafe : (m : Machine) → AllSafe cfg m → AllSafe cfg (flash_wait m)
  unfolding flash_wait
  flash_wait-AllSafe m h = poll-All (IsSafe cfg) (m.flash_ends m.log) tt h

  pub store-AllSafe :
      (a v : ℕ) (m : Machine)
      → 0x40000000 ≤ a
      → a ≢ flash_ar
      → AllSafe cfg m
      → AllSafe cfg (store word a v m)
  unfolding store
  store-AllSafe a v m lo ne h = ((lo, λ e. absurd (ne e)), h)

  pub set_cr-AllSafe :
      (mask : ℕ) (m : Machine) → AllSafe cfg m → AllSafe cfg (set_bits flash_cr mask m)
  unfolding set_bits
  set_cr-AllSafe mask m h = ((omega arith, λ e. absurd (omega arith)), (tt, h))

  pub keep_cr-AllSafe :
      (mask : ℕ) (m : Machine) → AllSafe cfg m → AllSafe cfg (keep_bits flash_cr mask m)
  unfolding keep_bits
  keep_cr-AllSafe mask m h = ((omega arith, λ e. absurd (omega arith)), (tt, h))

  pub store_ar-AllSafe :
      (a : ℕ) (m : Machine) → InApp cfg a 1 → AllSafe cfg m → AllSafe cfg (store word flash_ar a m)
  unfolding store
  store_ar-AllSafe a m i h = ((omega arith, λ _. i), h)

  pub flash_unlock-AllSafe :
      (opt : Bool) (m : Machine) → AllSafe cfg m → AllSafe cfg (flash_unlock opt m)
  unfolding flash_unlock
  flash_unlock-AllSafe opt m h = by_option opt
    where
      keyr : (v : ℕ) (m' : Machine) → AllSafe cfg m' → AllSafe cfg (store word flash_keyr v m')
      keyr v m' = store-AllSafe flash_keyr v m' (omega arith) (omega arith)

      optkeyr :
          (v : ℕ) (m' : Machine) → AllSafe cfg m' → AllSafe cfg (store word flash_optkeyr v m')
      optkeyr v m' = store-AllSafe flash_optkeyr v m' (omega arith) (omega arith)

      by_option : (b : Bool) → AllSafe cfg (flash_unlock b m)
      by_option true =
          optkeyr _ _ (optkeyr _ _ (keyr _ _ (keyr _ _ (set_cr-AllSafe flash_cr_lock m h))))
      by_option false = keyr _ _ (keyr _ _ (set_cr-AllSafe flash_cr_lock m h))

  pub flash_erase_page-AllSafe :
      (a : ℕ) (m : Machine) → InApp cfg a 1 → AllSafe cfg m → AllSafe cfg (flash_erase_page a m)
  unfolding flash_erase_page
  flash_erase_page-AllSafe a m i h = keep_cr-AllSafe _ _ (
      flash_wait-AllSafe _
        (set_cr-AllSafe _ _ (store_ar-AllSafe a _ i (set_cr-AllSafe _ _ (flash_wait-AllSafe m h)))))

  pub words_erased-AllSafe :
      (n a : ℕ) (m : Machine) → AllSafe cfg m → AllSafe cfg (words_erased n a m).1
  unfolding words_erased load
  words_erased-AllSafe zero a m h = h
  words_erased-AllSafe (suc n) a m h =
      ground (arith, words_erased-AllSafe n (u32 (a + 4)) (load word a m).1 (tt, h))

  pub ensure_erased-AllSafe :
      (a : ℕ) (m : Machine) → InApp cfg a 1 → AllSafe cfg m → AllSafe cfg (ensure_erased a m)
  unfolding ensure_erased flash_page_is_erased
  ensure_erased-AllSafe a m i h = by_test (words_erased words_per_page a m).0 refl
    where
      same : AllSafe cfg (words_erased words_per_page a m).1
      same = words_erased-AllSafe words_per_page a m h

      by_test :
          (b : Bool) → (words_erased words_per_page a m).0 ≡ b → AllSafe cfg (ensure_erased a m)
      by_test true e = rw e same
      by_test false e = rw e (flash_erase_page-AllSafe a _ i same)

  pub program_halves-AllSafe :
      (n i a : ℕ) (buf : List ℕ) (m : Machine)
      → start_addr cfg ≤ a
      → a + 2 * (i + n) ≤ end_addr cfg
      → AllSafe cfg m
      → AllSafe cfg (program_halves n i a buf m)
  unfolding program_halves store
  program_halves-AllSafe zero i a buf m lo hi h = h
  program_halves-AllSafe (suc n) i a buf m lo hi h =
      program_halves-AllSafe n (i + 1) a buf _ lo (omega arith)
        (flash_wait-AllSafe _ (inl (omega arith, omega arith), h))

  pub flash_program_buffer-AllSafe :
      (a : ℕ) (buf : List ℕ) (len : ℕ) (m : Machine)
      → InApp cfg a len
      → AllSafe cfg m
      → AllSafe cfg (flash_program_buffer a buf len m)
  unfolding flash_program_buffer
  flash_program_buffer-AllSafe a buf len m i h = keep_cr-AllSafe _ _ (
      program_halves-AllSafe (len / 2) 0 a buf _ i.0 (omega arith)
        (set_cr-AllSafe _ _ (flash_wait-AllSafe m h)))
