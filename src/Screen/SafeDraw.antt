-- ===== src/Screen/SafeDraw.antt =====
-- The accesses of the pictures of src/lcd.cpp.
use ln_dso_stm32_dfu_bootloa.Common.{
  Holds, none-Holds, some-Holds, bind-Holds, if-Holds, ℕ, zero, suc, List, [], Option, none, some,
  get_or, ltb,
}
use ln_dso_stm32_dfu_bootloa.Machine.{Machine}
use ln_dso_stm32_dfu_bootloa.Config.{Config}
use ln_dso_stm32_dfu_bootloa.Usb.Safe.{IsSafeSoFar, if-Safe, if_pair-Safe}
use ln_dso_stm32_dfu_bootloa.Screen.Ili.{ili_data_begin, ili_data_end}
use ln_dso_stm32_dfu_bootloa.Screen.Hs.{Heatshrink, IliHs, next}
use ln_dso_stm32_dfu_bootloa.Screen.Lcd.{Strip, put_byte, draw_rounds, draw_hs_bitmap, animate}
use ln_dso_stm32_dfu_bootloa.Screen.Safe.{
  dc_cmd-Safe, dc_dat-Safe, set_address_window-Safe, send_words-Safe,
}

module _ (cfg : Config) where
  put_byte-Safe :
      (cur : ℕ) (t : Strip) (m : Machine) → IsSafeSoFar cfg m → IsSafeSoFar cfg (put_byte cur t m).1
  unfolding put_byte
  put_byte-Safe cur t m h = if_pair-Safe cfg _ _ _ (send_words-Safe cfg _ _ m h) h

  module _ (h : Heatshrink) where
    -- What holds after the round with the next byte, if there is one.
    on_next :
        {R : Type 0} {P : R → Type 0} (o : Option (ℕ × IliHs h)) (k : ℕ → IliHs h → Option R)
        → ((cur : ℕ) (s : IliHs h) → Holds P (k cur s))
        → Holds P (elim o [ none ↦ none | some (cur, s) ↦ k cur s ])
    on_next none k f = none-Holds _
    on_next (some (cur, s)) k f = f cur s

    draw_rounds-Safe :
        (fuel nb : ℕ) (t : Strip) (s : IliHs h) (m : Machine)
        → IsSafeSoFar cfg m
        → Holds (λ r. IsSafeSoFar cfg r.1) (draw_rounds h fuel nb t s m)
    unfolding draw_rounds
    draw_rounds-Safe zero nb t s m a = none-Holds _
    draw_rounds-Safe (suc fuel) nb t s m a =
        if-Holds (ltb t.pixel nb) _ _
          (on_next (next h s)
            (λ cur s'. draw_rounds h fuel nb (put_byte cur t m).0 s' (put_byte cur t m).1)
            (λ cur s'. draw_rounds-Safe fuel nb _ s' _ (put_byte-Safe cur t m a)))
          (some-Holds _ (t, m) a)

    pub draw_hs_bitmap-Safe :
        (width height wx wy : ℕ) (bytes : List ℕ) (m : Machine)
        → IsSafeSoFar cfg m
        → Holds (λ m'. IsSafeSoFar cfg m') (draw_hs_bitmap h width height wx wy bytes m)
    unfolding draw_hs_bitmap ili_data_begin ili_data_end
    draw_hs_bitmap-Safe width height wx wy bytes m a =
        bind-Holds _ _
          (draw_rounds-Safe _ _ _ _ _ (dc_dat-Safe cfg _ (set_address_window-Safe cfg _ _ _ _ m a)))
          (λ r b.
            some-Holds _ _ (dc_cmd-Safe cfg _ (if-Safe cfg _ _ _ b (send_words-Safe cfg _ _ _ b))))

    pub animate-Safe :
        (steps : List (List ℕ)) (step : ℕ) (m : Machine)
        → IsSafeSoFar cfg m
        → Holds (λ r. IsSafeSoFar cfg r.1) (animate h steps step m)
    unfolding animate
    animate-Safe steps step m a =
        bind-Holds _ _ (draw_hs_bitmap-Safe _ _ _ _ (get_or steps step []) m a)
          (λ m' b. some-Holds _ _ b)
