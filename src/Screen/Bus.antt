-- ===== src/Screen/Bus.antt =====
-- What the display sees of the pins: a byte and the level of PC14 whenever PC15 rises.
use ln_dso_stm32_dfu_bootloa.Common.{
  ℕ, ◌+◌, ◌-◌, ◌*◌, ◌/◌, ◌%◌, ◌<◌, ◌≡◌, refl, Bool, true, false, not, ◌&&◌, List, [], ◌∷◌, u8,
  bit_and, bit_or, ◌==◌, if◌then◌else◌, holds_below_sound, ==→eq, arith, bit_and_le, bytes_of,
  bit_and-HasBytes,
}
use Prim.Native.Nat.{bit_or-bitwise}
use ln_dso_stm32_dfu_bootloa.Machine.{Machine, Access, Log, read, write, byte, half, word, store}
use ln_dso_stm32_dfu_bootloa.Screen.Ili.{
  gpio_bsrr, gpio_brr, ili_wr, ili_dc, ili_wr_strobe, ili_write_8bit,
}

-- The levels of the pins of port B from PB7 to PB0, of PC14 and of PC15, and what the display has been
-- told, the newest first.
pub record Bus : Type 0 where
  pub pins : ℕ
  pub dc : Bool
  pub wr : Bool
  pub heard : List (Bool × ℕ)

abbrev pub has : ℕ → ℕ → Bool
has v mask = not (bit_and v mask == 0)

-- A store to BSRR of port C sets the pins of its low half and resets those of its high half that it
-- does not set.
abbrev pub level : Bool → ℕ → ℕ → Bool
level old v mask = if has v mask then true else if has v (mask * 65536) then false else old

abbrev pub on_port_c : ℕ → Bus → Bus
on_port_c v b = record b {
  dc = level b.dc v ili_dc;
  wr = level b.wr v ili_wr;
  heard =
      if not b.wr && level b.wr v ili_wr then (level b.dc v ili_dc, b.pins) ∷ b.heard else b.heard;
}

-- A store to BRR resets the pins that it names.
abbrev pub off_port_c : ℕ → Bus → Bus
off_port_c v b = record b {
  dc = if has v ili_dc then false else b.dc;
  wr = if has v ili_wr then false else b.wr;
}

abbrev pub on_port_b : ℕ → Bus → Bus
on_port_b v b = record b { pins = bit_or (bit_and b.pins (255 - u8 (v / 65536))) (u8 v) }

abbrev pub after_access : Access → Bus → Bus
after_access (read w a) b = b
after_access (write byte a v) b = b
after_access (write half a v) b = if a == gpio_brr 2 then off_port_c v b else b
after_access (write word a v) b =
    if a == gpio_bsrr 1 then on_port_b v b else if a == gpio_bsrr 2 then on_port_c v b else b

abbrev pub bus : Log → Bus
bus [] = record { pins = 0; dc = false; wr = true; heard = [] }
bus (x ∷ log) = after_access x (bus log)

abbrev pub bus_of : Machine → Bus
bus_of m = bus m.log

low_byte : (d : ℕ) → bit_and d 0xff ≡ u8 d
low_byte d =
    let b = bit_and-HasBytes (bytes_of d) (bytes_of 0xff) in
    let none : bit_and (d / 256) 0 ≡ 0 = omega (arith, bit_and_le (d / 256) 0) in
    let all : bit_and (d % 256) 255 ≡ d % 256 =
      ==→eq _ _ (holds_below_sound (λ x. bit_and x 255 == x) 256 (d % 256) refl (omega arith)) in
    omega (arith, b.value, none, all)

with_reset : (x : ℕ) → x < 256 → bit_or 0x00ff0000 x ≡ 0x00ff0000 + x
with_reset x lt =
    ==→eq _ _ (holds_below_sound (λ x. bit_or 0x00ff0000 x == 0x00ff0000 + x) 256 x refl lt)

-- The byte that the driver stores to BSRR of port B is what the pins show, whatever they were.
pins_of : (old d : ℕ) → bit_or (bit_and old 0) (u8 d) ≡ u8 d
pins_of old d =
    let none : bit_and old 0 ≡ 0 = omega (arith, bit_and_le old 0) in
    rw none (bit_or-bitwise 0 (u8 d))

byte_stored : (d : ℕ) → bit_or 0x00ff0000 (bit_and d 0xff) ≡ 0x00ff0000 + u8 d
byte_stored d = rw (low_byte d) (with_reset (u8 d) (omega arith))

pub write_8bit-bus :
    (d : ℕ) (m : Machine)
    → let b = bus_of m in
      bus_of (ili_write_8bit d m)
      ≡ record b { pins = u8 d; wr = true; heard = (b.dc, u8 d) ∷ b.heard }
unfolding ili_write_8bit ili_wr_strobe store
write_8bit-bus d m =
    let high : u8 ((0x00ff0000 + u8 d) / 65536) ≡ 255 = omega arith in
    let low : u8 (0x00ff0000 + u8 d) ≡ u8 d = omega arith in
    rw (byte_stored d, high, low, pins_of (bus_of m).pins d) refl
