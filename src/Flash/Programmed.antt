-- ===== src/Flash/Programmed.antt =====
-- What `_flash_program_buffer` of src/flash.h leaves in the flash.
use ln_dso_stm32_dfu_bootloa.Common.{
  ℕ, zero, suc, ◌+◌, ◌*◌, ◌/◌, ◌≤◌, ◌<◌, ◌≡◌, ◌⊎◌, refl, List, some, ap, ◌∙◌, u32, half_at, arith,
}
use native.Mathlib.Decide.{dec_lt}
use ln_dso_stm32_dfu_bootloa.Machine.{Machine, half, store}
use ln_dso_stm32_dfu_bootloa.Flash.{flash_wait, program_halves, flash_program_buffer}
use ln_dso_stm32_dfu_bootloa.Flash.Stored.{stored, stored-flash_wait, stored-set_cr, stored-keep_cr}

stored-program_halves_outside :
    (n i address : ℕ) (buf : List ℕ) (m : Machine) (a : ℕ)
    → address + 2 * (i + n) ≤ 0x100000000
    → (a < address + 2 * i) ⊎ (address + 2 * (i + n) ≤ a)
    → stored (program_halves n i address buf m).log a ≡ stored m.log a
unfolding program_halves store
stored-program_halves_outside zero i address buf m a b out = refl
stored-program_halves_outside (suc n) i address buf m a b out = ground (
  arith,
  same,
  stored-flash_wait stored_first a,
  stored-program_halves_outside n (i + 1) address buf (flash_wait stored_first) a (omega arith)
      (omega arith),
)
  where
    same : u32 (address + 2 * i) ≡ address + 2 * i
    same = omega arith

    stored_first : Machine
    stored_first = store half (u32 (address + 2 * i)) (half_at buf (2 * i)) m

stored-program_halves :
    (n i address : ℕ) (buf : List ℕ) (m : Machine) (k : ℕ)
    → address + 2 * (i + n) ≤ 0x100000000
    → i ≤ k
    → k < i + n
    → stored (program_halves n i address buf m).log (address + 2 * k) ≡ some (half_at buf (2 * k))
unfolding program_halves store
stored-program_halves zero i address buf m k b lo hi = absurd (omega arith)
stored-program_halves (suc n) i address buf m k b lo hi = elim (dec_lt i k) [
  | yes later ↦
      stored-program_halves n (i + 1) address buf (flash_wait stored_first) k (omega arith)
        (omega arith) (omega arith)
  | no now ↦ ground (
    arith,
    same,
    stored-flash_wait stored_first (address + 2 * k),
    stored-program_halves_outside n (i + 1) address buf (flash_wait stored_first) (address + 2 * k)
        (omega arith) (omega arith),
    ap (λ (j : ℕ). half_at buf (2 * j)) (let e : i ≡ k = omega arith in e),
  )
]
  where
    same : u32 (address + 2 * i) ≡ address + 2 * i
    same = omega arith

    stored_first : Machine
    stored_first = store half (u32 (address + 2 * i)) (half_at buf (2 * i)) m

-- After `_flash_program_buffer` for bytes below the top of the address space, each whole
-- half-word of the buffer is the one stored last at its address, and its page has not been erased
-- since.
pub flash_program_buffer_stores :
    (address : ℕ) (buf : List ℕ) (len k : ℕ) (m : Machine)
    → address + len ≤ 0x100000000
    → k < len / 2
    → stored (flash_program_buffer address buf len m).log (address + 2 * k)
      ≡ some (half_at buf (2 * k))
unfolding flash_program_buffer
flash_program_buffer_stores address buf len k m b lt =
    stored-keep_cr _ _ _
    ∙ stored-program_halves (len / 2) 0 address buf _ k (omega arith) (omega arith) (omega arith)

-- After `_flash_program_buffer` for bytes below the top of the address space, an address outside
-- the programmed half-words keeps what was stored there: no half-word is stored at it and its page is
-- not erased.
pub flash_program_buffer_outside :
    (address : ℕ) (buf : List ℕ) (len a : ℕ) (m : Machine)
    → address + len ≤ 0x100000000
    → (a < address) ⊎ (address + 2 * (len / 2) ≤ a)
    → stored (flash_program_buffer address buf len m).log a ≡ stored m.log a
unfolding flash_program_buffer
flash_program_buffer_outside address buf len a m b out =
    stored-keep_cr _ _ _
    ∙ stored-program_halves_outside (len / 2) 0 address buf _ a (omega arith) (omega arith)
    ∙ stored-set_cr _ _ _
    ∙ stored-flash_wait m a
