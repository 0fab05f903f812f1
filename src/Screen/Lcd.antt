-- ===== src/Screen/Lcd.antt =====
-- src/lcd.cpp: the pictures of the DFU mode.
use ln_dso_stm32_dfu_bootloa.Common.{
  ◌>>=◌, ℕ, zero, suc, ◌+◌, ◌-◌, ◌*◌, ◌/◌, List, [], Option, none, some, u16, get_or, set,
  replicate, bit_and, ltb, leb, ◌==◌, if◌then◌else◌,
}
use ln_dso_stm32_dfu_bootloa.Machine.{Machine}
use ln_dso_stm32_dfu_bootloa.Screen.Ili.{
  Ili, ili_set_address_window, ili_data_begin, ili_data_end, ili_send_words, ili_init,
  ili_rotate_display, ili_fill_screen,
}
use ln_dso_stm32_dfu_bootloa.Screen.Hs.{Heatshrink, IliHs, ili_hs, next}

abbrev pub st7735_buffer_size_word : ℕ
st7735_buffer_size_word = 128

-- The loop over the bits of `cur`, `n` of them left: the pixels go to `temp` from `o` on.
unfoldable pub put_bits : ℕ → ℕ → ℕ → ℕ → List ℕ → List ℕ
put_bits zero mask cur o temp = temp
put_bits (suc n) mask cur o temp =
    put_bits n (mask / 2) cur (o + 1) (set temp o (if bit_and mask cur == 0 then 0 else 0xffff))

-- The locals of `drawHSBitmap`; `o` is the offset of the pointer in `temp`.
pub record Strip : Type 0 where
  pub pixel : ℕ
  pub ready : ℕ
  pub o : ℕ
  pub temp : List ℕ

-- One round after `cur` has come.
unfoldable pub put_byte : ℕ → Strip → Machine → Strip × Machine
put_byte cur t m =
    let t' : Strip = record {
      pixel = t.pixel + 8;
      ready = t.ready + 8;
      o = t.o + 8;
      temp = put_bits 8 0x80 cur t.o t.temp;
    } in
    if ltb (st7735_buffer_size_word - 16) t'.ready
    then (record t' { ready = 0; o = 0 }, ili_send_words t'.ready t'.temp m)
    else (t', m)

abbrev pub dfu_usb_width : ℕ
dfu_usb_width = 80

abbrev pub dfu_usb_height : ℕ
dfu_usb_height = 52

abbrev pub anim_0_width : ℕ
anim_0_width = 56

abbrev pub anim_0_height : ℕ
anim_0_height = 36

abbrev pub nb_step : ℕ
nb_step = 6

module _ (h : Heatshrink) where
  unfoldable pub draw_rounds : ℕ → ℕ → Strip → IliHs h → Machine → Option (Strip × Machine)
  draw_rounds zero nb_pixel t s m = none
  draw_rounds (suc fuel) nb_pixel t s m =
      let round : Option (Strip × Machine) = elim (next h s) [
        | none ↦ none
        | some (cur, s') ↦ let (t', m') = put_byte cur t m in draw_rounds fuel nb_pixel t' s' m'
      ] in
      if ltb t.pixel nb_pixel then round else some (t, m)

  -- `temp` is not initialised.
  unfoldable pub draw_hs_bitmap : ℕ → ℕ → ℕ → ℕ → List ℕ → Machine → Option Machine
  draw_hs_bitmap width height wx wy bytes m = do
    let nb_pixel = width * height
    let m =
        ili_set_address_window (u16 wx) (u16 wy) (u16 (width + wx + 65535))
          (u16 (height + wy + 65535)) m
    (t, m) ←
        draw_rounds (nb_pixel + 1) nb_pixel
          (record { pixel = 0; ready = 0; o = 0; temp = replicate st7735_buffer_size_word 0 })
          (ili_hs h bytes) (ili_data_begin m)
    some (ili_data_end (if t.ready == 0 then m else ili_send_words t.ready t.temp m))

  -- `dfu_usb` is the compressed picture.
  unfoldable pub run_lcd : List ℕ → Ili → Machine → List ℕ → Option (Ili × Machine × List ℕ)
  run_lcd dfu_usb g m ticks = do
    (g, m, ticks) ← ili_init g m ticks
    let (g, m) = ili_rotate_display 1 g m
    let m = ili_fill_screen 0 g m
    m ← draw_hs_bitmap dfu_usb_width dfu_usb_height ((320 - dfu_usb_width) / 2) 48 dfu_usb m
    some (g, m, ticks)

  -- `step` is a global; the steps are the compressed pictures of `animation_step`.
  unfoldable pub animate : List (List ℕ) → ℕ → Machine → Option (ℕ × Machine)
  animate steps step m = do
    m ←
        draw_hs_bitmap anim_0_width anim_0_height ((320 - anim_0_width) / 2) 140
          (get_or steps step []) m
    let step = step + 1
    some (if leb nb_step step then 0 else step, m)
