-- ===== src/Screen/Shows.antt =====
-- What `runLcd` and `animate` of src/lcd.cpp put on the display.
use ln_dso_stm32_dfu_bootloa.Common.{
  ℕ, zero, suc, ◌+◌, ◌*◌, ◌/◌, ◌%◌, ◌<◌, ◌≡◌, refl, Bool, true, false, List, [], ◌∷◌, ◌++◌, some,
  u8, u16, u32, length, get_or, leb, if◌then◌else◌, arith, ap, ◌∙◌,
}
use ln_dso_stm32_dfu_bootloa.Machine.{Machine}
use ln_dso_stm32_dfu_bootloa.Screen.Ili.{
  Ili, ili_write_8bit, fill_pixels, ili_fill_color, ili_fill_screen, ili_set_address_window,
  ili_rotate_display, ili_init, ili_madctl,
}
use ln_dso_stm32_dfu_bootloa.Screen.Hs.{Heatshrink}
use ln_dso_stm32_dfu_bootloa.Screen.Lcd.{run_lcd, animate, nb_step}
use ln_dso_stm32_dfu_bootloa.Screen.Bus.{bus_of}
use ln_dso_stm32_dfu_bootloa.Screen.Says.{
  tells, pixels, window, Says, dc_dat-Says, write_8bit-Says, write_cmd_param-Says,
  set_address_window-Says, ◌then_says◌, nothing_said,
}
use ln_dso_stm32_dfu_bootloa.Screen.Stream.{IsDecoder}
use ln_dso_stm32_dfu_bootloa.Screen.Draw.{picture}
use ln_dso_stm32_dfu_bootloa.Screen.Picture.{draw_hs_bitmap-pixels}

-- `n` pixels of one colour.
unfoldable pub solid : ℕ → ℕ → List (Bool × ℕ)
solid zero color = []
solid (suc n) color = (true, u8 (color / 256)) ∷ (true, u8 color) ∷ solid n color

fill_pixels-Says :
    (color n : ℕ) (m : Machine)
    → (bus_of m).dc ≡ true
    → Says m (fill_pixels color n m) (solid n color) true
unfolding fill_pixels solid
fill_pixels-Says color zero m e = nothing_said m true e
fill_pixels-Says color (suc n) m e =
    let high = write_8bit-Says (u8 (color / 256)) m true e in
    let low = write_8bit-Says (u8 color) (ili_write_8bit (u8 (color / 256)) m) true high.level in
    let twice : (x : ℕ) → u8 (u8 x) ≡ u8 x = λ x. omega arith in
    rw (twice (color / 256), twice color) at
      (high then_says low then_says fill_pixels-Says color n _ low.level)

pub fill_screen-Says :
    (color : ℕ) (g : Ili) (m : Machine)
    → Says m
        (ili_fill_screen color g m)
        (window 0 0 (u16 (g.tftwidth + 65535)) (u16 (g.tftheight + 65535))
          ++ solid (u32 (g.tftwidth * g.tftheight)) color)
        true
unfolding ili_fill_screen ili_fill_color
fill_screen-Says color g m =
    let at_window =
      ili_set_address_window 0 0 (u16 (g.tftwidth + 65535)) (u16 (g.tftheight + 65535)) m in
    let begun =
      set_address_window-Says 0 0 (u16 (g.tftwidth + 65535)) (u16 (g.tftheight + 65535)) m
      then_says dc_dat-Says at_window in
    begun then_says fill_pixels-Says color (u32 (g.tftwidth * g.tftheight)) _ begun.level

-- The command that turns the display by a quarter.
abbrev pub quarter_turn : Ili → List (Bool × ℕ)
quarter_turn g = (false, ili_madctl) ∷ (true, if g.is7789 then 0xa0 else 0xe0) ∷ []

rotate-Says : (g : Ili) (m : Machine) → Says m (ili_rotate_display 1 g m).1 (quarter_turn g) true
unfolding ili_rotate_display
rotate-Says g m = by_type g.is7789
  where
    by_type :
        (b : Bool)
        → Says m
            (ili_rotate_display 1 (record g { is7789 = b }) m).1
            (quarter_turn (record g { is7789 = b }))
            true
    by_type true = write_cmd_param-Says ili_madctl 1 (0xa0 ∷ []) m (omega arith)
    by_type false = write_cmd_param-Says ili_madctl 1 (0xe0 ∷ []) m (omega arith)

rotated :
    (g : Ili) (m : Machine)
    → (ili_rotate_display 1 g m).0 ≡ record g { tftwidth = 320; tftheight = 240 }
unfolding ili_rotate_display
rotated g m = refl

module _ (h : Heatshrink) (Codes : h.Decoder → List ℕ → List ℕ → Type 0) where
  module _ (laws : IsDecoder h Codes) where
    -- Once ili_init has returned, runLcd returns with heatshrink as documented and a picture of 520 bytes,
    -- and the display has been told to turn, 320 x 240 black pixels, and the picture of 80 x 52 pixels
    -- at (120, 48).
    pub run_lcd-shows :
        (bytes bs more : List ℕ) (g g' : Ili) (m m' : Machine) (ticks ticks' : List ℕ)
        → ili_init g m ticks ≡ some (g', m', ticks')
        → Codes h.reset bytes (bs ++ more)
        → length bs ≡ 520
        → (m'' : Machine) × (run_lcd h bytes g m ticks
            ≡ some (record g' { tftwidth = 320; tftheight = 240 }, m'', ticks'))
          × ((bus_of m'').heard
              ≡ tells (window 120 48 199 99 ++ pixels (picture bs)) (
                  tells
                    (solid 76800 0)
                    (tells (window 0 0 319 239) (tells (quarter_turn g') (bus_of m').heard))))
    unfolding run_lcd
    run_lcd-shows bytes bs more g g' m m' ticks ticks' init c size =
        let turned = (ili_rotate_display 1 g' m').1 in
        let wide : Ili = record g' { tftwidth = 320; tftheight = 240 } in
        let black = rotate-Says g' m' then_says fill_screen-Says 0 wide turned in
        let d =
          draw_hs_bitmap-pixels h Codes laws 80 52 120 48 bytes bs more
            (ili_fill_screen 0 wide turned) c (omega arith) (omega arith) in
        (
          d.0,
          rw (init, rotated g' m', d.1) refl,
          d.2 ∙ ap (tells (window 120 48 199 99 ++ pixels (picture bs))) black.heard,
        )

    -- With heatshrink as documented and a picture of 252 bytes for the step, `animate` returns, shows the
    -- picture of 56 x 36 pixels at (132, 140), and goes on to the next step, from the last to the first.
    pub animate-shows :
        (steps : List (List ℕ)) (step : ℕ) (bs more : List ℕ) (m : Machine)
        → step < nb_step
        → Codes h.reset (get_or steps step []) (bs ++ more)
        → length bs ≡ 252
        → (m' : Machine) × (animate h steps step m ≡ some ((step + 1) % nb_step, m'))
          × ((bus_of m').heard
              ≡ tells (window 132 140 187 175 ++ pixels (picture bs)) (bus_of m).heard)
    unfolding animate
    animate-shows steps step bs more m lt c size =
        let d =
          draw_hs_bitmap-pixels h Codes laws 56 36 132 140 (get_or steps step []) bs more m c
            (omega arith) (omega arith) in
        let next : (if leb nb_step (step + 1) then 0 else step + 1) ≡ (step + 1) % nb_step =
          ground arith in
        (d.0, rw (d.1, next) refl, d.2)
