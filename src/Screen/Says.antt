-- ===== src/Screen/Says.antt =====
-- What the driver's routines tell the display.
use ln_dso_stm32_dfu_bootloa.Common.{
  ℕ, zero, suc, ◌/◌, ◌≤◌, ◌≡◌, refl, Bool, true, false, List, [], ◌∷◌, ◌++◌, u8, arith, ◌∙◌, sym,
  ap, take, length,
}
use ln_dso_stm32_dfu_bootloa.Machine.{Machine, store}
use ln_dso_stm32_dfu_bootloa.Screen.Ili.{
  ili_dc_cmd, ili_dc_dat, ili_write_8bit, ili_write_command_8bit, write_bytes, write_cmd_param,
  ili_send_words, ili_set_address_window, ili_caset, ili_paset, ili_ramwr,
}
use ln_dso_stm32_dfu_bootloa.Screen.Bus.{bus_of, write_8bit-bus}

-- The newest stands first in what the display has heard, the oldest in what it is told.
abbrev pub tells : List (Bool × ℕ) → List (Bool × ℕ) → List (Bool × ℕ)
tells [] heard = heard
tells (x ∷ xs) heard = tells xs (x ∷ heard)

pub tells-append :
    (xs ys heard : List (Bool × ℕ)) → tells (xs ++ ys) heard ≡ tells ys (tells xs heard)
tells-append [] ys heard = refl
tells-append (x ∷ xs) ys heard = tells-append xs ys (x ∷ heard)

-- From `m` to `m'` the display is told `xs`, and then PC14 has the level `dc`.
pub record Says (m m' : Machine) (xs : List (Bool × ℕ)) (dc : Bool) : Type 0 where
  pub heard : (bus_of m').heard ≡ tells xs (bus_of m).heard
  pub level : (bus_of m').dc ≡ dc

infixl 30 ◌then_says◌
pub ◌then_says◌ :
    {m m' m'' : Machine} {xs ys : List (Bool × ℕ)} {d d' : Bool}
    → Says m m' xs d
    → Says m' m'' ys d'
    → Says m m'' (xs ++ ys) d'
◌then_says◌ {m = m} {xs = xs} {ys = ys} s t = record {
  heard = t.heard ∙ ap (tells ys) s.heard ∙ sym (tells-append xs ys (bus_of m).heard);
  level = t.level;
}

pub nothing_said : (m : Machine) (d : Bool) → (bus_of m).dc ≡ d → Says m m [] d
nothing_said m d e = record { heard = refl; level = e }

pub dc_cmd-Says : (m : Machine) → Says m (ili_dc_cmd m) [] false
unfolding ili_dc_cmd store
dc_cmd-Says m = record { heard = refl; level = refl }

pub dc_dat-Says : (m : Machine) → Says m (ili_dc_dat m) [] true
unfolding ili_dc_dat store
dc_dat-Says m = record { heard = ground arith; level = refl }

pub write_8bit-Says :
    (d : ℕ) (m : Machine) (b : Bool)
    → (bus_of m).dc ≡ b
    → Says m (ili_write_8bit d m) ((b, u8 d) ∷ []) b
write_8bit-Says d m b e = record {
  heard = rw (write_8bit-bus d m, e) refl;
  level = rw (write_8bit-bus d m) e;
}

pub command-Says :
    (cmd : ℕ) (m : Machine) → Says m (ili_write_command_8bit cmd m) ((false, u8 cmd) ∷ []) false
unfolding ili_write_command_8bit
command-Says cmd m =
    let off = dc_cmd-Says m in off then_says write_8bit-Says cmd (ili_dc_cmd m) false off.level

-- Bytes with PC14 high.
abbrev pub sent : List ℕ → List (Bool × ℕ)
sent [] = []
sent (x ∷ xs) = (true, u8 x) ∷ sent xs

pub write_bytes-Says :
    (n : ℕ) (bytes : List ℕ) (m : Machine)
    → (bus_of m).dc ≡ true
    → n ≤ length bytes
    → Says m (write_bytes n bytes m) (sent (take n bytes)) true
unfolding write_bytes
write_bytes-Says zero bytes m e le = nothing_said m true e
write_bytes-Says (suc n) [] m e le = absurd (omega arith)
write_bytes-Says (suc n) (x ∷ xs) m e le =
    let first = write_8bit-Says x m true e in
    first then_says write_bytes-Says n xs (ili_write_8bit x m) first.level (omega arith)

pub write_cmd_param-Says :
    (cmd size : ℕ) (bytes : List ℕ) (m : Machine)
    → size ≤ length bytes
    → Says m (write_cmd_param cmd size bytes m) ((false, u8 cmd) ∷ sent (take size bytes)) true
unfolding write_cmd_param
write_cmd_param-Says cmd size bytes m le =
    let start = command-Says cmd m then_says dc_dat-Says (ili_write_command_8bit cmd m) in
    start then_says write_bytes-Says size bytes _ start.level le

-- The commands that open a window of the display for the pixels that follow.
abbrev pub window : ℕ → ℕ → ℕ → ℕ → List (Bool × ℕ)
window x1 y1 x2 y2 =
    (false, ili_caset)
    ∷ (true, u8 (x1 / 256))
    ∷ (true, u8 x1)
    ∷ (true, u8 (x2 / 256))
    ∷ (true, u8 x2)
    ∷ (false, ili_paset)
    ∷ (true, u8 (y1 / 256))
    ∷ (true, u8 y1)
    ∷ (true, u8 (y2 / 256))
    ∷ (true, u8 y2)
    ∷ (false, ili_ramwr)
    ∷ []

u8_twice : (x : ℕ) → u8 (u8 x) ≡ u8 x
u8_twice x = omega arith

four-Says :
    (cmd a b c d : ℕ) (m : Machine)
    → Says m
        (write_cmd_param cmd 4 (u8 a ∷ u8 b ∷ u8 c ∷ u8 d ∷ []) m)
        ((false, u8 cmd) ∷ sent (a ∷ b ∷ c ∷ d ∷ []))
        true
four-Says cmd a b c d m =
    rw (u8_twice a, u8_twice b, u8_twice c, u8_twice d) at
      (write_cmd_param-Says cmd 4 (u8 a ∷ u8 b ∷ u8 c ∷ u8 d ∷ []) m (omega arith))

pub set_address_window-Says :
    (x1 y1 x2 y2 : ℕ) (m : Machine)
    → Says m (ili_set_address_window x1 y1 x2 y2 m) (window x1 y1 x2 y2) false
unfolding ili_set_address_window
set_address_window-Says x1 y1 x2 y2 m =
    four-Says ili_caset (x1 / 256) x1 (x2 / 256) x2 m
    then_says four-Says ili_paset (y1 / 256) y1 (y2 / 256) y2 _
    then_says command-Says ili_ramwr _

-- Pixels of 16 bits, the high byte first.
abbrev pub pixels : List ℕ → List (Bool × ℕ)
pixels [] = []
pixels (w ∷ ws) = (true, u8 (w / 256)) ∷ (true, u8 w) ∷ pixels ws

pub pixels-append : (vs ws : List ℕ) → pixels (vs ++ ws) ≡ pixels vs ++ pixels ws
pixels-append [] ws = refl
pixels-append (v ∷ vs) ws = ap (λ r. (true, u8 (v / 256)) ∷ (true, u8 v) ∷ r) (pixels-append vs ws)

pub send_words-Says :
    (n : ℕ) (words : List ℕ) (m : Machine)
    → (bus_of m).dc ≡ true
    → n ≤ length words
    → Says m (ili_send_words n words m) (pixels (take n words)) true
unfolding ili_send_words
send_words-Says zero words m e le = nothing_said m true e
send_words-Says (suc n) [] m e le = absurd (omega arith)
send_words-Says (suc n) (w ∷ ws) m e le =
    let left : n ≤ length ws = omega arith in
    let high = write_8bit-Says (u8 (w / 256)) m true e in
    let low = write_8bit-Says (u8 w) _ true high.level in
    let rest = send_words-Says n ws _ low.level left in
    rw (u8_twice (w / 256), u8_twice w) at (high then_says low then_says rest)
