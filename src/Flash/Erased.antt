-- ===== src/Flash/Erased.antt =====
-- What `_flash_page_is_erased` of src/flash.h tells: each word of the page was loaded as ones.
use ln_dso_stm32_dfu_bootloa.Common.{
  ℕ, zero, suc, ◌+◌, ◌*◌, ◌<◌, ◌≡◌, refl, true, ◌∷◌, u32, arith, sym, ap, ◌∙◌,
}
use ln_dso_stm32_dfu_bootloa.Machine.{Machine, Log, read, word, value, load}
use ln_dso_stm32_dfu_bootloa.Flash.{words_erased, words_per_page, flash_page_is_erased}

-- The log after the loads of `n` consecutive words.
abbrev pub after_loads : ℕ → ℕ → Log → Log
after_loads zero addr log = log
after_loads (suc n) addr log = after_loads n (u32 (addr + 4)) (read word addr ∷ log)

-- The word that the loop loads in round `i`.
abbrev pub word_loaded : ℕ → ℕ → Machine → ℕ
word_loaded i addr m = value m.answer (after_loads i addr m.log) word (u32 (addr + 4 * i))

word_loaded-suc :
    (i addr : ℕ) (m : Machine)
    → word_loaded i (u32 (addr + 4)) (load word addr m).1 ≡ word_loaded (suc i) addr m
unfolding load
word_loaded-suc i addr m =
    ap (value m.answer (after_loads (suc i) addr m.log) word)
      (let e : u32 (u32 (addr + 4) + 4 * i) ≡ u32 (addr + 4 * suc i) = omega arith in e)

words_erased_sound :
    (n addr : ℕ) (m : Machine)
    → addr < 0x100000000
    → (words_erased n addr m).0 ≡ true
    → (i : ℕ) → i < n
    → word_loaded i addr m ≡ 0xffffffff
unfolding words_erased
words_erased_sound zero addr m b h i lt = elim lt [ ]
words_erased_sound (suc n) addr m b h zero lt =
    let same : u32 (addr + 4 * 0) ≡ addr = omega arith in
    ap (value m.answer m.log word) same ∙ first
  where
    first : value m.answer m.log word addr ≡ 0xffffffff
    first = unfold load in ground arith
words_erased_sound (suc n) addr m b h (suc i) lt =
    sym (word_loaded-suc i addr m)
    ∙ words_erased_sound n (u32 (addr + 4)) (load word addr m).1 (omega arith) rest i (omega arith)
  where
    rest : (words_erased n (u32 (addr + 4)) (load word addr m).1).0 ≡ true
    rest = ground arith

words_erased_complete :
    (n addr : ℕ) (m : Machine)
    → addr < 0x100000000
    → ((i : ℕ) → i < n → word_loaded i addr m ≡ 0xffffffff)
    → (words_erased n addr m).0 ≡ true
unfolding words_erased
words_erased_complete zero addr m b h = refl
words_erased_complete (suc n) addr m b h = ground (
  arith,
  first,
  words_erased_complete n (u32 (addr + 4)) (load word addr m).1 (omega arith)
      (λ i lt. word_loaded-suc i addr m ∙ h (suc i) (omega arith)),
)
  where
    same : u32 (addr + 4 * 0) ≡ addr
    same = omega arith

    first : (load word addr m).0 ≡ 0xffffffff
    first = unfold load in sym (ap (value m.answer m.log word) same) ∙ h 0 (omega arith)

-- For an address of 32 bits, where `_flash_page_is_erased` returns true, each of the 256 words
-- from it on was loaded as 0xffffffff; a load may depend on the loads before it.
pub flash_page_is_erased_sound :
    (addr : ℕ) (m : Machine)
    → addr < 0x100000000
    → (flash_page_is_erased addr m).0 ≡ true
    → (i : ℕ) → i < words_per_page
    → word_loaded i addr m ≡ 0xffffffff
unfolding flash_page_is_erased
flash_page_is_erased_sound addr m b e i lt = words_erased_sound words_per_page addr m b e i lt

-- For an address of 32 bits, if each of the 256 words from it on is loaded as 0xffffffff,
-- `_flash_page_is_erased` returns true.
pub flash_page_is_erased_complete :
    (addr : ℕ) (m : Machine)
    → addr < 0x100000000
    → ((i : ℕ) → i < words_per_page → word_loaded i addr m ≡ 0xffffffff)
    → (flash_page_is_erased addr m).0 ≡ true
unfolding flash_page_is_erased
flash_page_is_erased_complete addr m b h = words_erased_complete words_per_page addr m b h
