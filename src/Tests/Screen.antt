-- ===== src/Tests/Screen.antt =====
-- A decoder and pictures for src/lcd.cpp and its display driver.
use ln_dso_stm32_dfu_bootloa.Common.{
  ℕ, zero, suc, ◌+◌, ◌≤◌, ◌<◌, ◌≡◌, refl, Bool, true, false, List, [], ◌∷◌, ◌++◌, Option, none,
  some, u16, length, length-replicate, replicate, take, drop, ltb, if◌then◌else◌, arith, ap, ◌∙◌,
  sym,
}
use mathlib.Core.List.{append_assoc, append-nil}
use ln_dso_stm32_dfu_bootloa.Machine.{Machine, load, store, write, word}
use ln_dso_stm32_dfu_bootloa.Screen.Ili.{
  Ili, ili_init, send_sequence, set_pins, set_pin_to_default, write_cmd_param, write_bytes,
  ili_read_register_32, pin_modes, read_bytes, read_8,
}
use ln_dso_stm32_dfu_bootloa.Board.{ln_pin_mode, ln_digital_write, ln_read_port}
use ln_dso_stm32_dfu_bootloa.Stubs.{x_delay, delay_until}
use ln_dso_stm32_dfu_bootloa.Screen.Hs.{Heatshrink, empty, more}
use ln_dso_stm32_dfu_bootloa.Screen.Lcd.{Strip, put_byte, draw_hs_bitmap, run_lcd, animate}
use ln_dso_stm32_dfu_bootloa.Screen.Bus.{bus_of}
use ln_dso_stm32_dfu_bootloa.Screen.Says.{tells, window, pixels}
use ln_dso_stm32_dfu_bootloa.Screen.Stream.{IsDecoder}
use ln_dso_stm32_dfu_bootloa.Screen.Sequence.{command, pause, play, table, send_sequence-table}
use ln_dso_stm32_dfu_bootloa.Screen.Draw.{byte_pixels, IsReady, flushed, put_byte-IsReady, picture}
use ln_dso_stm32_dfu_bootloa.Screen.Picture.{draw_hs_bitmap-pixels}
use ln_dso_stm32_dfu_bootloa.Screen.Shows.{solid, quarter_turn, run_lcd-shows, animate-shows}
use ln_dso_stm32_dfu_bootloa.Tests.{zeros}

-- A decoder that passes its input on: it takes a byte at a time and keeps those it has not put out.
abbrev pass_on : List ℕ → List ℕ → Option ℕ × List ℕ
pass_on d [] = (some 0, d)
pass_on d (x ∷ src) = (some 1, d ++ x ∷ [])

abbrev pub plain : Heatshrink
plain = record {
  Decoder = List ℕ;
  reset = [];
  poll = λ d n. (if ltb n (length d) then more else empty, take n d, drop n d);
  sink = λ d src size. pass_on d src;
}

abbrev pub Passes : List ℕ → List ℕ → List ℕ → Type 0
Passes d src out = d ++ src ≡ out

take-drop : (n : ℕ) (d : List ℕ) → take n d ++ drop n d ≡ d
take-drop zero d = refl
take-drop (suc n) [] = refl
take-drop (suc n) (x ∷ d) = ap (λ r. x ∷ r) (take-drop n d)

length-take : (n : ℕ) (d : List ℕ) → length (take n d) ≤ n
length-take zero d = omega arith
length-take (suc n) [] = omega arith
length-take (suc n) (x ∷ d) = omega (arith, length-take n d)

plain_polled :
    (n : ℕ) (d src out : List ℕ)
    → Passes d src out
    → (rest : List ℕ) × (out ≡ take n d ++ rest)
      × (length (take n d) ≤ n)
      × Passes (drop n d) src rest
plain_polled n d src out c = (
  drop n d ++ src,
  sym c ∙ ap (λ r. r ++ src) (sym (take-drop n d)) ∙ append_assoc (take n d) (drop n d) src,
  length-take n d,
  refl,
)

plain_hungry :
    (n : ℕ) (d src : List ℕ) (b : ℕ) (out : List ℕ) (size : ℕ)
    → 0 < n
    → 0 < size
    → Passes d src (b ∷ out)
    → take n d ≡ []
    → ((if ltb n (length d) then more else empty) ≡ empty)
      × (k : ℕ) × ((pass_on (drop n d) src).0 ≡ some k)
      × (0 < k)
      × (k ≤ length src)
      × Passes (pass_on (drop n d) src).1 (drop k src) (b ∷ out)
plain_hungry zero d src b out size lt lt' c e = absurd (omega arith)
plain_hungry (suc n) [] [] b out size lt lt' c e = absurd (ground arith)
plain_hungry (suc n) [] (x ∷ src) b out size lt lt' c e =
    (ground arith, 1, refl, omega arith, omega arith, c)
plain_hungry (suc n) (y ∷ d) src b out size lt lt' c e = absurd (ground arith)

pub plain-IsDecoder : IsDecoder plain Passes
plain-IsDecoder = record { polled = plain_polled; hungry = plain_hungry }

-- The display takes data, and 112 pixels wait.
abbrev waiting : Strip
waiting = record { pixel = 112; ready = 112; o = 112; temp = replicate 128 0 }

abbrev data_mode : Machine
data_mode = record zeros { log = write word 0x40011010 0x4000 ∷ [] }

put_byte-IsReady_example :
    let (t', m') = put_byte 0xa5 waiting data_mode in
    IsReady t' m'
    × (t'.pixel ≡ 112 + 8)
    × (flushed t' m' ≡ tells (pixels (byte_pixels 0xa5)) (flushed waiting data_mode))
put_byte-IsReady_example =
    put_byte-IsReady 0xa5 waiting data_mode
      (record { at = refl; small = omega arith; size = length-replicate {A = ℕ} 128 0; dc = refl })

send_sequence-table_example :
    send_sequence 3 (table (command 0x3a (0x55 ∷ []) ∷ pause 150 ∷ [])) zeros (5 ∷ 100 ∷ 156 ∷ [])
    ≡ play (command 0x3a (0x55 ∷ []) ∷ pause 150 ∷ []) zeros (5 ∷ 100 ∷ 156 ∷ [])
send_sequence-table_example =
    send_sequence-table 3 (command 0x3a (0x55 ∷ []) ∷ pause 150 ∷ []) zeros (5 ∷ 100 ∷ 156 ∷ [])
      ((omega arith, omega arith, omega arith), (omega arith, tt)) (omega arith)

-- 16 x 9 pixels.
abbrev stripes : List ℕ
stripes = replicate 18 0xa5

draw_hs_bitmap-pixels_example :
    (m' : Machine) × (draw_hs_bitmap plain 16 9 20 30 stripes zeros ≡ some m')
    × ((bus_of m').heard
        ≡ tells
            (window (u16 20) (u16 30) (u16 (16 + 20 + 65535)) (u16 (9 + 30 + 65535))
              ++ pixels (picture stripes))
            (bus_of zeros).heard)
draw_hs_bitmap-pixels_example =
    draw_hs_bitmap-pixels plain Passes plain-IsDecoder 16 9 20 30 stripes stripes [] zeros refl
      (omega arith) (omega arith)

abbrev pub six_steps : List (List ℕ)
six_steps = replicate 6 (replicate 252 0x81)

animate-shows_example :
    (m' : Machine) × (animate plain six_steps 5 zeros ≡ some (0, m'))
    × ((bus_of m').heard
        ≡ tells
            (window 132 140 187 175 ++ pixels (picture (replicate 252 0x81)))
            (bus_of zeros).heard)
animate-shows_example =
    animate-shows plain Passes plain-IsDecoder six_steps 5 (replicate 252 0x81) [] zeros
      (omega arith) (append-nil (replicate 252 0x81)) (length-replicate {A = ℕ} 252 0x81)

-- The counter as the four delays of the initialisation see it.
abbrev counted : List ℕ
counted = 0 ∷ 21 ∷ 21 ∷ 72 ∷ 72 ∷ 223 ∷ 223 ∷ 374 ∷ 375 ∷ []

abbrev pub unset : Ili
unset = record { tftwidth = 240; tftheight = 320; is7789 = false }

abbrev pub has_ended : {A : Type 0} → Option A → Bool
has_ended none = false
has_ended (some a) = true

abbrev pub result : {A : Type 0} → A → Option A → A
result a none = a
result a (some b) = b

pub ended : {A : Type 0} (a : A) (o : Option A) → has_ended o ≡ true → o ≡ some (result a o)
ended a none e = absurd (ground arith)
ended a (some b) e = refl

abbrev awake : Ili × Machine × List ℕ
awake = result (unset, zeros, []) (ili_init unset zeros counted)

awake_ended : has_ended (ili_init unset zeros counted) ≡ true
unfolding ili_init set_pins set_pin_to_default ln_pin_mode ln_digital_write x_delay delay_until
    send_sequence write_cmd_param write_bytes ili_read_register_32 pin_modes read_bytes read_8
    ln_read_port load store
awake_ended = refl

-- 80 x 52 pixels.
abbrev pub grey : List ℕ
grey = replicate 520 0xaa

run_lcd-shows_example :
    (m'' : Machine) × (run_lcd plain grey unset zeros counted
      ≡ some (record awake.0 { tftwidth = 320; tftheight = 240 }, m'', awake.2))
    × ((bus_of m'').heard
        ≡ tells (window 120 48 199 99 ++ pixels (picture grey)) (
            tells
              (solid 76800 0)
              (tells (window 0 0 319 239) (tells (quarter_turn awake.0) (bus_of awake.1).heard))))
run_lcd-shows_example =
    run_lcd-shows plain Passes plain-IsDecoder grey grey [] unset awake.0 zeros awake.1 counted
      awake.2 (ended (unset, zeros, []) (ili_init unset zeros counted) awake_ended)
      (append-nil grey) (length-replicate {A = ℕ} 520 0xaa)
