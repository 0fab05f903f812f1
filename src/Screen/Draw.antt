-- ===== src/Screen/Draw.antt =====
-- The pixels that `drawHSBitmap` of src/lcd.cpp sends.
use ln_dso_stm32_dfu_bootloa.Common.{
  ℕ, zero, suc, ◌+◌, ◌/◌, ◌≤◌, ◌<◌, ◌≡◌, refl, Bool, true, List, [], ◌∷◌, ◌++◌, length, set, take,
  overlay, bit_and, ltb, ◌==◌, if◌then◌else◌, arith, ap, ◌∙◌, sym, Bool-cases, inl, inr,
  length-overlay, length-set,
}
use mathlib.Core.List.{append_assoc, append-nil}
use ln_dso_stm32_dfu_bootloa.Machine.{Machine}
use ln_dso_stm32_dfu_bootloa.Screen.Lcd.{st7735_buffer_size_word, put_bits, Strip, put_byte}
use ln_dso_stm32_dfu_bootloa.Screen.Bus.{bus_of}
use ln_dso_stm32_dfu_bootloa.Screen.Says.{
  tells, tells-append, pixels, pixels-append, send_words-Says,
}

-- White where the bit is set, black where it is not; the highest bit is the leftmost pixel.
abbrev pixel_of : ℕ → ℕ → ℕ
pixel_of cur mask = if bit_and mask cur == 0 then 0 else 0xffff

abbrev pub byte_pixels : ℕ → List ℕ
byte_pixels cur =
    pixel_of cur 0x80
    ∷ pixel_of cur 0x40
    ∷ pixel_of cur 0x20
    ∷ pixel_of cur 0x10
    ∷ pixel_of cur 0x08
    ∷ pixel_of cur 0x04
    ∷ pixel_of cur 0x02
    ∷ pixel_of cur 0x01
    ∷ []

abbrev pub picture : List ℕ → List ℕ
picture [] = []
picture (b ∷ bs) = byte_pixels b ++ picture bs

-- `n` pixels from the bit of `mask` down.
abbrev bit_pixels : ℕ → ℕ → ℕ → List ℕ
bit_pixels zero mask cur = []
bit_pixels (suc n) mask cur = pixel_of cur mask ∷ bit_pixels n (mask / 2) cur

put_bits-eq-overlay :
    (n mask cur o : ℕ) (temp : List ℕ)
    → put_bits n mask cur o temp ≡ overlay temp o (bit_pixels n mask cur)
unfolding put_bits
put_bits-eq-overlay zero mask cur o temp = refl
put_bits-eq-overlay (suc n) mask cur o temp =
    let e : o + 1 ≡ suc o = omega arith in
    rw e (put_bits-eq-overlay n (mask / 2) cur (suc o) (set temp o (pixel_of cur mask)))

take-set : (xs : List ℕ) (i v : ℕ) → i < length xs → take (suc i) (set xs i v) ≡ take i xs ++ v ∷ []
take-set [] i v lt = absurd (omega arith)
take-set (x ∷ xs) zero v lt = refl
take-set (x ∷ xs) (suc i) v lt = ap (λ r. x ∷ r) (take-set xs i v (omega arith))

take-overlay :
    (dst : List ℕ) (i : ℕ) (src : List ℕ)
    → i + length src ≤ length dst
    → take (i + length src) (overlay dst i src) ≡ take i dst ++ src
take-overlay dst i [] le = let e : i + 0 ≡ i = omega arith in rw e (sym (append-nil (take i dst)))
take-overlay dst i (x ∷ xs) le =
    let e : i + length (x ∷ xs) ≡ suc i + length xs = omega arith in
    rw e (
      take-overlay (set dst i x) (suc i) xs (omega (arith, length-set dst i x))
      ∙ ap (λ r. r ++ xs) (take-set dst i x (omega arith))
      ∙ append_assoc (take i dst) (x ∷ []) xs)

-- The strip between two rounds: the pointer is behind the pixels that wait, and a byte's pixels fit.
pub record IsReady (t : Strip) (m : Machine) : Type 0 where
  pub at : t.o ≡ t.ready
  pub small : t.ready ≤ 112
  pub size : length t.temp ≡ st7735_buffer_size_word
  pub dc : (bus_of m).dc ≡ true

-- What the display has heard once the pixels that wait are sent.
abbrev pub flushed : Strip → Machine → List (Bool × ℕ)
flushed t m = tells (pixels (take t.ready t.temp)) (bus_of m).heard

-- From a strip whose pointer is behind at most 112 waiting pixels, with the display in data mode, a
-- round leaves such a strip, counts 8 pixels on, and the pixels of `cur` follow the waiting ones, so
-- that nothing is written past the end of the 128 words.
pub put_byte-IsReady :
    (cur : ℕ) (t : Strip) (m : Machine)
    → IsReady t m
    → let (t', m') = put_byte cur t m in
      IsReady t' m'
      × (t'.pixel ≡ t.pixel + 8)
      × (flushed t' m' ≡ tells (pixels (byte_pixels cur)) (flushed t m))
unfolding put_byte
put_byte-IsReady cur t m r = elim (Bool-cases (ltb 112 (t.ready + 8))) [
  | inl full ↦
      let s = send_words-Says (t.ready + 8) temp m r.dc (omega (arith, length_temp)) in
      rw full (
        record { at = refl; small = omega arith; size = length_temp; dc = s.level },
        refl,
        s.heard ∙ told,
      )
  | inr room ↦ rw room (
    record { at = ap (λ n. n + 8) r.at; small = ground arith; size = length_temp; dc = r.dc },
    refl,
    told,
  )
]
  where
    temp : List ℕ
    temp = put_bits 8 0x80 cur t.o t.temp

    length_temp : length temp ≡ st7735_buffer_size_word
    length_temp =
        ap length (put_bits-eq-overlay 8 0x80 cur t.o t.temp)
        ∙ length-overlay t.temp t.o (byte_pixels cur)
        ∙ r.size

    taken : take (t.ready + 8) temp ≡ take t.ready t.temp ++ byte_pixels cur
    taken =
        ap (take (t.ready + 8)) (put_bits-eq-overlay 8 0x80 cur t.o t.temp)
        ∙ rw r.at (take-overlay t.temp t.ready (byte_pixels cur) (omega (arith, r.small, r.size)))

    told :
        tells (pixels (take (t.ready + 8) temp)) (bus_of m).heard
        ≡ tells (pixels (byte_pixels cur)) (flushed t m)
    told =
        ap (λ ws. tells (pixels ws) (bus_of m).heard) taken
        ∙ ap (λ ws. tells ws (bus_of m).heard)
            (pixels-append (take t.ready t.temp) (byte_pixels cur))
        ∙ tells-append (pixels (take t.ready t.temp)) (pixels (byte_pixels cur)) (bus_of m).heard
