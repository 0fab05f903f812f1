-- ===== src/Stubs.antt =====
-- The library functions that the boot loader brings along: `memcpy` of src/stubs.cpp and `strlen`
-- of src/usb.cpp.
use ln_dso_stm32_dfu_bootloa.Common.{
  Option, none, some, u32, ℕ, zero, suc, ◌+◌, ◌≤◌, ◌<◌, ◌≡◌, ◌⊎◌, refl, List, [], ◌∷◌, ◌∙◌, length,
  get_or, set, length-set, get_or-set_self, get_or-set_ne, ◌==◌, ltb, true, false, if◌then◌else◌,
  arith,
}
use native.Mathlib.Decide.{dec_lt}

-- `count` bytes are left, the next one goes from `src[i]` to `dst[i]`.
unfoldable pub memcpy_from : ℕ → ℕ → List ℕ → List ℕ → List ℕ
memcpy_from zero i dst src = dst
memcpy_from (suc count) i dst src = memcpy_from count (i + 1) (set dst i (get_or src i 0)) src

unfoldable pub memcpy : List ℕ → List ℕ → ℕ → List ℕ
memcpy dst src count = memcpy_from count 0 dst src

-- The characters before the first NUL, or all that there are.
unfoldable pub strlen : List ℕ → ℕ
strlen [] = 0
strlen (c ∷ s) = if c == 0 then 0 else suc (strlen s)

length-memcpy_from :
    (count i : ℕ) (dst src : List ℕ) → length (memcpy_from count i dst src) ≡ length dst
unfolding memcpy_from
length-memcpy_from zero i dst src = refl
length-memcpy_from (suc count) i dst src =
    length-memcpy_from count (i + 1) (set dst i (get_or src i 0)) src
    ∙ length-set dst i (get_or src i 0)

pub length-memcpy : (dst src : List ℕ) (count : ℕ) → length (memcpy dst src count) ≡ length dst
unfolding memcpy
length-memcpy dst src count = length-memcpy_from count 0 dst src

memcpy_from-outside :
    (count i : ℕ) (dst src : List ℕ) (j : ℕ)
    → (j < i) ⊎ (i + count ≤ j)
    → get_or (memcpy_from count i dst src) j 0 ≡ get_or dst j 0
unfolding memcpy_from
memcpy_from-outside zero i dst src j out = refl
memcpy_from-outside (suc count) i dst src j out =
    memcpy_from-outside count (i + 1) (set dst i (get_or src i 0)) src j (omega arith)
    ∙ get_or-set_ne dst i j (get_or src i 0) 0 (omega arith)

memcpy_from-inside :
    (count i : ℕ) (dst src : List ℕ) (j : ℕ)
    → i ≤ j
    → j < i + count
    → i + count ≤ length dst
    → get_or (memcpy_from count i dst src) j 0 ≡ get_or src j 0
unfolding memcpy_from
memcpy_from-inside zero i dst src j lo hi fits = absurd (omega arith)
memcpy_from-inside (suc count) i dst src j lo hi fits = elim (dec_lt i j) [
  | yes later ↦
      memcpy_from-inside count (i + 1) (set dst i (get_or src i 0)) src j (omega arith)
        (omega arith) (omega (arith, length-set dst i (get_or src i 0)))
  | no now ↦
      memcpy_from-outside count (i + 1) (set dst i (get_or src i 0)) src j (omega arith)
      ∙ (let e : i ≡ j = omega arith in
          rw (← e) (get_or-set_self dst i (get_or src i 0) 0 (omega arith)))
]

-- Where the count fits in the destination, byte `j` after the copy is the source's inside the count
-- and the old one past it.
pub get_or-memcpy :
    (dst src : List ℕ) (count j : ℕ)
    → count ≤ length dst
    → get_or (memcpy dst src count) j 0 ≡ (if ltb j count then get_or src j 0 else get_or dst j 0)
unfolding memcpy
get_or-memcpy dst src count j fits = elim (dec_lt j count) [
  | yes inside ↦
      let t : ltb j count ≡ true = ground arith in
      rw t (memcpy_from-inside count 0 dst src j (omega arith) (omega arith) (omega arith))
  | no outside ↦
      let t : ltb j count ≡ false = ground arith in
      rw t (memcpy_from-outside count 0 dst src j (omega arith))
]

-- The rounds of `xDelay` until the counter is past `tgt`; `none` if it is not yet.
unfoldable pub delay_until : ℕ → List ℕ → Option (List ℕ)
delay_until tgt [] = none
delay_until tgt (t ∷ ticks) =
    let rest = delay_until tgt ticks in if ltb tgt t then some ticks else rest

unfoldable pub x_delay : ℕ → List ℕ → Option (List ℕ)
x_delay ms [] = none
x_delay ms (t ∷ ticks) = delay_until (u32 (t + ms)) ticks
