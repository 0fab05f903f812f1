-- ===== src/Board/Pins.antt =====
-- The two ways in which lnArduino_mini/lnGPIO.cpp sets a pin.
use ln_dso_stm32_dfu_bootloa.Common.{
  ℕ, ◌+◌, ◌*◌, ◌/◌, ◌%◌, ◌^◌, ◌<◌, ◌≡◌, refl, true, false, ◌==◌, u32, ap, sym, arith,
  holds_below_sound, ==→eq,
}
use ln_dso_stm32_dfu_bootloa.Machine.{Machine, word, store}
use ln_dso_stm32_dfu_bootloa.Board.{gpio, gpio_bop, fast_io_members, on, off, ln_digital_write}

set_bit : (k : ℕ) → k < 16 → u32 (1 * 2 ^ k) ≡ 2 ^ k
set_bit k lt =
    ==→eq (u32 (1 * 2 ^ k)) (2 ^ k) (holds_below_sound (λ k. u32 (1 * 2 ^ k) == 2 ^ k) 16 k refl lt)

reset_bit : (k : ℕ) → k < 16 → u32 (2 ^ 16 * 2 ^ k) ≡ u32 (2 ^ k * 2 ^ 16)
reset_bit k lt =
    ==→eq (u32 (2 ^ 16 * 2 ^ k)) (u32 (2 ^ k * 2 ^ 16))
      (holds_below_sound (λ k. u32 (2 ^ 16 * 2 ^ k) == u32 (2 ^ k * 2 ^ 16)) 16 k refl lt)

-- For every pin, the object that `lnFastIO` makes writes what `lnDigitalWrite` writes: `on` for true
-- and `off` for false.
fast_io-ln_digital_write :
    (pin : ℕ) (m : Machine)
    → (on (fast_io_members pin) m ≡ ln_digital_write pin true m)
      × (off (fast_io_members pin) m ≡ ln_digital_write pin false m)
unfolding on off fast_io_members ln_digital_write
fast_io-ln_digital_write pin m = (
  ap (λ v. store word (gpio (pin / 16) + gpio_bop) v m) (sym (set_bit (pin % 16) (omega arith))),
  ap (λ v. store word (gpio (pin / 16) + gpio_bop) v m) (sym (reset_bit (pin % 16) (omega arith))),
)
