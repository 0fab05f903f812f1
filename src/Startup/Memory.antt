-- ===== src/Startup/Memory.antt =====
-- What the start-up code of arm_gd32fx/start.cpp leaves in the memory, and the blocks that the
-- allocator of lnArduino_mini/systemAlloc.cpp gives out.
use ln_dso_stm32_dfu_bootloa.Common.{
  ℕ, zero, suc, ◌+◌, ◌*◌, ◌≤◌, ◌<◌, ◌≡◌, refl, true, false, List, [], ◌∷◌, some, u32, ltb, arith,
  ap, ◌∙◌,
}
use native.Mathlib.Decide.{dec_lt}
use ln_dso_stm32_dfu_bootloa.Machine.{Machine, Log, word, value, load, store}
use ln_dso_stm32_dfu_bootloa.Machine.Trace.{stored_word}
use ln_dso_stm32_dfu_bootloa.Startup.{copy_words, zero_words, rounded, sys_alloc}

zero_words_below :
    (fuel start end : ℕ) (m : Machine) (a : ℕ)
    → a < start
    → end + 4 ≤ 0x100000000
    → stored_word (zero_words fuel start end m).log a ≡ stored_word m.log a
unfolding zero_words store
zero_words_below zero start end m a lt b = refl
zero_words_below (suc fuel) start end m a lt b = elim (dec_lt start end) [
  | yes more ↦
      let t : ltb start end ≡ true = ground arith in
      rw t (
        zero_words_below fuel (u32 (start + 4)) end (store word start 0 m) a (omega arith) b
        ∙ ground arith)
  | no done ↦ let t : ltb start end ≡ false = ground arith in rw t refl
]

-- With fuel for its words and bounds below the top of the address space, the loop over .bss
-- stores a 0 last at each word between its bounds.
zero_words_clears :
    (fuel start end : ℕ) (m : Machine) (k : ℕ)
    → end + 4 ≤ 0x100000000
    → start + 4 * k < end
    → k < fuel
    → stored_word (zero_words fuel start end m).log (start + 4 * k) ≡ some 0
unfolding zero_words
zero_words_clears zero start end m k b inside f = elim f [ ]
zero_words_clears (suc fuel) start end m zero b inside f =
    rw (more, same)
      (zero_words_below fuel (u32 (start + 4)) end (store word start 0 m) start (omega arith) b
        ∙ (unfold store in ground arith))
  where
    more : ltb start end ≡ true
    more = ground arith

    same : start + 4 * 0 ≡ start
    same = omega arith
zero_words_clears (suc fuel) start end m (suc k) b inside f =
    rw (more, next)
      (zero_words_clears fuel (u32 (start + 4)) end (store word start 0 m) k b (omega arith)
        (omega arith))
  where
    more : ltb start end ≡ true
    more = ground arith

    next : start + 4 * suc k ≡ u32 (start + 4) + 4 * k
    next = omega arith

copy_words_below :
    (fuel dst end src : ℕ) (m : Machine) (a : ℕ)
    → a < dst
    → end + 4 ≤ 0x100000000
    → stored_word (copy_words fuel dst end src m).log a ≡ stored_word m.log a
unfolding copy_words load store
copy_words_below zero dst end src m a lt b = refl
copy_words_below (suc fuel) dst end src m a lt b = elim (dec_lt dst end) [
  | yes more ↦
      let t : ltb dst end ≡ true = ground arith in
      rw t (
        copy_words_below fuel (u32 (dst + 4)) end (u32 (src + 4)) _ a (omega arith) b
        ∙ ground arith)
  | no done ↦ let t : ltb dst end ≡ false = ground arith in rw t refl
]

-- The first `n` words of the image of .data read the same whenever they are read.
abbrev pub ReadsImage : Machine → ℕ → (ℕ → ℕ) → ℕ → Type 0
ReadsImage m src image n =
    (k : ℕ) → k < n → (log : Log) → value m.answer log word (src + 4 * k) ≡ image k

-- With fuel for its words and addresses that do not wrap, the loop over .data stores word `k` of
-- the image last at word `k` between its bounds, if the image reads the same throughout up to
-- this word.
pub copy_words_copies :
    (fuel dst end src : ℕ) (m : Machine) (image : ℕ → ℕ) (k : ℕ)
    → ReadsImage m src image (suc k)
    → end + 4 ≤ 0x100000000
    → src + end + 4 ≤ dst + 0x100000000
    → dst + 4 * k < end
    → k < fuel
    → stored_word (copy_words fuel dst end src m).log (dst + 4 * k) ≡ some (image k)
unfolding copy_words load store
copy_words_copies zero dst end src m image k h b b' inside f = elim f [ ]
copy_words_copies (suc fuel) dst end src m image zero h b b' inside f =
    rw (more, same)
      (copy_words_below fuel (u32 (dst + 4)) end (u32 (src + 4)) _ dst (omega arith) b
        ∙ ground (arith, here))
  where
    more : ltb dst end ≡ true
    more = ground arith

    same : dst + 4 * 0 ≡ dst
    same = omega arith

    here : value m.answer m.log word src ≡ image 0
    here =
        ap (value m.answer m.log word) (let e : src ≡ src + 4 * 0 = omega arith in e)
        ∙ h 0 (omega arith) m.log
copy_words_copies (suc fuel) dst end src m image (suc k) h b b' inside f =
    rw (more, next)
      (copy_words_copies fuel (u32 (dst + 4)) end (u32 (src + 4)) _ (λ j. image (suc j)) k later b
        (omega arith) (omega arith) (omega arith))
  where
    more : ltb dst end ≡ true
    more = ground arith

    next : dst + 4 * suc k ≡ u32 (dst + 4) + 4 * k
    next = omega arith

    later : ReadsImage m (u32 (src + 4)) (λ j. image (suc j)) (suc k)
    later j lt log =
        ap (value m.answer log word)
          (let e : u32 (src + 4) + 4 * j ≡ src + 4 * suc j = omega arith in e)
        ∙ h (suc j) (omega arith) log

-- The blocks that a list of requests gets, each with its size.
abbrev pub blocks : List ℕ → ℕ → Machine → List (ℕ × ℕ)
blocks [] heap m = []
blocks (size ∷ sizes) heap m = let (p, m') = sys_alloc size heap m in (p, size) ∷ blocks sizes p m'

-- Each block ends at or below the limit, and all the later ones end at or below its start.
abbrev pub AreStacked : ℕ → List (ℕ × ℕ) → Type 0
AreStacked limit [] = Unit
AreStacked limit ((p, size) ∷ rest) = (p + size ≤ limit) × AreStacked p rest

-- The bytes that a list of requests takes off the heap.
abbrev pub room : List ℕ → ℕ
room [] = 0
room (size ∷ sizes) = 4 * rounded size + room sizes

-- If the requests fit below the heap's start, no two of their blocks overlap.
pub blocks-AreStacked :
    (sizes : List ℕ) (heap : ℕ) (m : Machine)
    → room sizes ≤ heap
    → heap < 0x100000000
    → AreStacked heap (blocks sizes heap m)
unfolding sys_alloc
blocks-AreStacked [] heap m fits b = tt
blocks-AreStacked (size ∷ sizes) heap m fits b =
    (omega arith, blocks-AreStacked sizes _ _ (omega arith) (omega arith))
