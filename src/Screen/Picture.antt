-- ===== src/Screen/Picture.antt =====
-- The picture that `drawHSBitmap` of src/lcd.cpp puts on the display.
use ln_dso_stm32_dfu_bootloa.Common.{
  ℕ, zero, suc, ◌+◌, ◌*◌, ◌≤◌, ◌<◌, ◌≡◌, refl, true, false, List, [], ◌∷◌, ◌++◌, some, u16, length,
  take, replicate, ltb, ◌==◌, if◌then◌else◌, arith, ap, ◌∙◌, sym, Bool-cases, inl, inr,
  length-replicate,
}
use ln_dso_stm32_dfu_bootloa.Machine.{Machine}
use ln_dso_stm32_dfu_bootloa.Screen.Ili.{
  ili_send_words, ili_set_address_window, ili_data_begin, ili_data_end,
}
use ln_dso_stm32_dfu_bootloa.Screen.Hs.{Heatshrink, IliHs, ili_hs}
use ln_dso_stm32_dfu_bootloa.Screen.Lcd.{
  st7735_buffer_size_word, Strip, put_byte, draw_rounds, draw_hs_bitmap,
}
use ln_dso_stm32_dfu_bootloa.Screen.Bus.{bus_of}
use ln_dso_stm32_dfu_bootloa.Screen.Says.{
  tells, tells-append, pixels, pixels-append, send_words-Says, window, Says, dc_cmd-Says,
  set_address_window-Says, dc_dat-Says, ◌then_says◌,
}
use ln_dso_stm32_dfu_bootloa.Screen.Stream.{IsDecoder, Yields, ili_hs-Yields, next-Yields}
use ln_dso_stm32_dfu_bootloa.Screen.Draw.{picture, byte_pixels, IsReady, flushed, put_byte-IsReady}

data_begin-Says : (m : Machine) → Says m (ili_data_begin m) [] true
unfolding ili_data_begin
data_begin-Says m = dc_dat-Says m

-- What is left in the strip goes out at the end.
flush_end :
    (t : Strip) (m : Machine)
    → IsReady t m
    → (bus_of (ili_data_end (if t.ready == 0 then m else ili_send_words t.ready t.temp m))).heard
      ≡ flushed t m
unfolding ili_data_end
flush_end t m r = elim (Bool-cases (t.ready == 0)) [
  | inl nothing ↦
      let e : t.ready ≡ 0 = ground arith in
      rw nothing (dc_cmd-Says m).heard
      ∙ ap (λ n. tells (pixels (take n t.temp)) (bus_of m).heard) (sym e)
  | inr waiting ↦
      let s = send_words-Says t.ready t.temp m r.dc (omega (arith, r.small, r.size)) in
      rw waiting ((dc_cmd-Says (ili_send_words t.ready t.temp m)).heard ∙ s.heard)
]

abbrev first_strip : Strip
first_strip = record { pixel = 0; ready = 0; o = 0; temp = replicate st7735_buffer_size_word 0 }

module _ (h : Heatshrink) (Codes : h.Decoder → List ℕ → List ℕ → Type 0) where
  module _ (laws : IsDecoder h Codes) where
    -- The strip and the machine that the rounds leave when `bs` are the bytes they take.
    record Drawn (fuel nb : ℕ) (bs : List ℕ) (t : Strip) (s : IliHs h) (m : Machine) : Type 0 where
      strip : Strip
      after : Machine
      returns : draw_rounds h fuel nb t s m ≡ some (strip, after)
      ready : IsReady strip after
      told : flushed strip after ≡ tells (pixels (picture bs)) (flushed t m)

    draw_rounds-Drawn :
        (fuel nb : ℕ) (bs more : List ℕ) (t : Strip) (s : IliHs h) (m : Machine)
        → length bs < fuel
        → nb ≤ t.pixel + 8 * length bs
        → t.pixel + 8 * length bs < nb + 8
        → Yields h Codes s (bs ++ more)
        → IsReady t m
        → Drawn fuel nb bs t s m
    unfolding draw_rounds
    draw_rounds-Drawn zero nb bs more t s m lt enough few y r = absurd (omega arith)
    draw_rounds-Drawn (suc fuel) nb [] more t s m lt enough few y r =
        let done : ltb t.pixel nb ≡ false = ground arith in
        record { strip = t; after = m; returns = rw done refl; ready = r; told = refl }
    draw_rounds-Drawn (suc fuel) nb (b ∷ bs) more t s m lt enough few y r =
        let left : ltb t.pixel nb ≡ true = ground arith in
        let n = next-Yields h Codes laws s b (bs ++ more) y in
        let p = put_byte-IsReady b t m r in
        let rest =
          draw_rounds-Drawn fuel nb bs more (put_byte b t m).0 n.0 (put_byte b t m).1 (omega arith)
            (omega (arith, p.1)) (omega (arith, p.1)) n.2 p.0 in
        record {
          strip = rest.strip;
          after = rest.after;
          returns = rw (left, n.1) rest.returns;
          ready = rest.ready;
          told =
              rest.told
              ∙ ap (tells (pixels (picture bs))) p.2
              ∙ sym (tells-append (pixels (byte_pixels b)) (pixels (picture bs)) (flushed t m))
              ∙ ap (λ ws. tells ws (flushed t m))
                  (sym (pixels-append (byte_pixels b) (picture bs)));
        }

    -- With heatshrink as documented, a compressed picture of `bs`, as many bytes as the pixels need, is
    -- drawn whole: the routine returns, and the display is told the window and then every pixel of the
    -- bytes in order.
    pub draw_hs_bitmap-pixels :
        (width height wx wy : ℕ) (bytes bs more : List ℕ) (m : Machine)
        → Codes h.reset bytes (bs ++ more)
        → width * height ≤ 8 * length bs
        → 8 * length bs < width * height + 8
        → (m' : Machine) × (draw_hs_bitmap h width height wx wy bytes m ≡ some m')
          × ((bus_of m').heard
              ≡ tells
                  (window (u16 wx) (u16 wy) (u16 (width + wx + 65535)) (u16 (height + wy + 65535))
                    ++ pixels (picture bs))
                  (bus_of m).heard)
    unfolding draw_hs_bitmap
    draw_hs_bitmap-pixels width height wx wy bytes bs more m c enough few =
        let at_window =
          ili_set_address_window (u16 wx) (u16 wy) (u16 (width + wx + 65535))
            (u16 (height + wy + 65535)) m in
        let window_set =
          set_address_window-Says (u16 wx) (u16 wy) (u16 (width + wx + 65535))
            (u16 (height + wy + 65535)) m in
        let begun = window_set then_says data_begin-Says at_window in
        let d =
          draw_rounds-Drawn (width * height + 1) (width * height) bs more first_strip
            (ili_hs h bytes) (ili_data_begin at_window) (omega arith) (omega arith) (omega arith)
            (ili_hs-Yields h Codes bytes (bs ++ more) c)
            (record {
              at = refl;
              small = omega arith;
              size = length-replicate {A = ℕ} 128 0;
              dc = begun.level;
            }) in
        (
          ili_data_end (
              if d.strip.ready == 0
              then d.after
              else ili_send_words d.strip.ready d.strip.temp d.after),
          rw d.returns refl,
          flush_end d.strip d.after d.ready ∙ d.told ∙ ap (tells (pixels (picture bs))) begun.heard,
        )
