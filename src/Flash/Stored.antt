-- ===== src/Flash/Stored.antt =====
-- The half-words that the accesses leave in the flash: the one stored last at an address, unless its page
-- has been erased since.
use ln_dso_stm32_dfu_bootloa.Common.{
  ℕ, zero, suc, ◌+◌, ◌/◌, ◌≡◌, ◌≢◌, refl, Bool, true, false, [], ◌∷◌, Option, none, some, ◌==◌,
  ◌&&◌, ◌∙◌, if◌then◌else◌, u32, arith,
}
use ln_dso_stm32_dfu_bootloa.Machine.{
  Machine, Log, Answer, Settles, ready, again, read, write, byte, half, word, load, store, set_bits,
  keep_bits, poll,
}
use ln_dso_stm32_dfu_bootloa.Flash.{
  flash_cr, flash_ar, flash_wait, flash_unlock, flash_lock, flash_erase_page, words_erased,
  words_per_page, flash_page_is_erased, ensure_erased,
}

-- The half-word that the flash keeps at `a`, if one has been stored there. A store to FLASH_AR counts
-- as the erase of the page of the address stored, which `_flash_erase_page` then starts. What the flash held before is not part of it: a half-word
-- that is stored counts as programmed.
abbrev pub stored : Log → ℕ → Option ℕ
stored [] a = none
stored (read w b ∷ log) a = stored log a
stored (write byte b v ∷ log) a = stored log a
stored (write half b v ∷ log) a = if b == a then some v else stored log a
stored (write word b v ∷ log) a =
    if (b == flash_ar) && (v / 1024 == a / 1024) then none else stored log a

stored-poll :
    {answer : Answer} {a : ℕ} {done : ℕ → Bool} {log : Log} (s : Settles answer a done log) (b : ℕ)
    → stored (poll s) b ≡ stored log b
unfolding poll
stored-poll (ready e) b = refl
stored-poll (again e s) b = stored-poll s b

-- The stores to FLASH_CR, FLASH_KEYR and FLASH_OPTKEYR leave the half-words alone.
pub stored-set_cr :
    (mask : ℕ) (m : Machine) (a : ℕ) → stored (set_bits flash_cr mask m).log a ≡ stored m.log a
unfolding set_bits
stored-set_cr mask m a = refl

pub stored-keep_cr :
    (mask : ℕ) (m : Machine) (a : ℕ) → stored (keep_bits flash_cr mask m).log a ≡ stored m.log a
unfolding keep_bits
stored-keep_cr mask m a = refl

pub stored-flash_wait : (m : Machine) (a : ℕ) → stored (flash_wait m).log a ≡ stored m.log a
unfolding flash_wait
stored-flash_wait m a = stored-poll (m.flash_ends m.log) a

pub stored-flash_unlock :
    (opt : Bool) (m : Machine) (a : ℕ) → stored (flash_unlock opt m).log a ≡ stored m.log a
unfolding flash_unlock set_bits store
stored-flash_unlock true m a = refl
stored-flash_unlock false m a = refl

pub stored-flash_lock : (m : Machine) (a : ℕ) → stored (flash_lock m).log a ≡ stored m.log a
unfolding flash_lock
stored-flash_lock m a = stored-set_cr _ m a

stored-store_ar :
    (p : ℕ) (m : Machine) (a : ℕ)
    → p / 1024 ≢ a / 1024
    → stored (store word flash_ar p m).log a ≡ stored m.log a
unfolding store
stored-store_ar p m a other = ground (arith, other)

-- An erase leaves the other pages alone.
stored-flash_erase_page :
    (p : ℕ) (m : Machine) (a : ℕ)
    → p / 1024 ≢ a / 1024
    → stored (flash_erase_page p m).log a ≡ stored m.log a
unfolding flash_erase_page
stored-flash_erase_page p m a other =
    stored-keep_cr _ _ a
    ∙ stored-flash_wait _ a
    ∙ stored-set_cr _ _ a
    ∙ stored-store_ar p _ a other
    ∙ stored-set_cr _ _ a
    ∙ stored-flash_wait m a

stored-words_erased :
    (n p : ℕ) (m : Machine) (a : ℕ) → stored (words_erased n p m).1.log a ≡ stored m.log a
unfolding words_erased load
stored-words_erased zero p m a = refl
stored-words_erased (suc n) p m a =
    ground (arith, stored-words_erased n (u32 (p + 4)) (load word p m).1 a)

pub stored-ensure_erased :
    (p : ℕ) (m : Machine) (a : ℕ)
    → p / 1024 ≢ a / 1024
    → stored (ensure_erased p m).log a ≡ stored m.log a
unfolding ensure_erased flash_page_is_erased
stored-ensure_erased p m a other = ground (
  arith,
  stored-words_erased words_per_page p m a,
  stored-flash_erase_page p (words_erased words_per_page p m).1 a other,
)
