-- ===== src/Usb/Text.antt =====
-- The bytes on the wire of src/usb.cpp: setup packets and string descriptors.
use ln_dso_stm32_dfu_bootloa.Common.{
  ℕ, zero, suc, ◌+◌, ◌-◌, ◌*◌, ◌/◌, ◌%◌, ◌≤◌, ◌<◌, ◌≡◌, refl, false, List, [], ◌∷◌, ◌∙◌, length,
  get_or, set, take, overlay, half_at, u8, leb, ◌==◌, arith, ap, length-set, length-overlay,
  get_or-overlay, get_or-overlay_below, get_or-set_self, get_or-set_ne,
}
use ln_dso_stm32_dfu_bootloa.Stubs.{strlen}
use ln_dso_stm32_dfu_bootloa.Dfu.Types.{SetupData, handled}
use ln_dso_stm32_dfu_bootloa.Usb.State.{Usb}
use ln_dso_stm32_dfu_bootloa.Usb.Structs.{le16}
use ln_dso_stm32_dfu_bootloa.Usb.Descriptors.{
  put_chars, get_string, string_descriptor, usb_dt_string,
}
use ln_dso_stm32_dfu_bootloa.Usb.Control.{setup_bytes, setup_of}

-- A setup packet's bytes give back the packet.
setup_of-setup_bytes : (r : SetupData) → setup_of (setup_bytes r) ≡ r
setup_of-setup_bytes r =
    let whole : (w : ℕ) → w % 256 + 256 * (w / 256) ≡ w = λ w. omega arith in
    rw (whole r.w_value, whole r.w_index, whole r.w_length) refl

put_chars_below :
    (s : List ℕ) (i : ℕ) (b : List ℕ) (j : ℕ)
    → j < 2 + 2 * i
    → get_or (put_chars s i b) j 0 ≡ get_or b j 0
unfolding put_chars
put_chars_below [] i b j lt = refl
put_chars_below (c ∷ s) i b j lt =
    put_chars_below s (i + 1) (overlay b (2 + 2 * i) (le16 c)) j (omega arith)
    ∙ get_or-overlay_below b (2 + 2 * i) (le16 c) j 0 lt

-- Character `k` stands in the buffer as a half-word.
put_chars_half :
    (s : List ℕ) (i : ℕ) (b : List ℕ) (k : ℕ)
    → 2 + 2 * (i + length s) ≤ length b
    → k < length s
    → half_at (put_chars s i b) (2 + 2 * (i + k)) ≡ get_or s k 0
unfolding put_chars
put_chars_half [] i b k fits lt = elim lt [ ]
put_chars_half (c ∷ s) i b zero fits lt = rw (low, high) (omega arith)
  where
    stored : List ℕ
    stored = overlay b (2 + 2 * i) (le16 c)

    low : get_or (put_chars s (i + 1) stored) (2 + 2 * (i + 0)) 0 ≡ c % 256
    low =
        put_chars_below s (i + 1) stored (2 + 2 * (i + 0)) (omega arith)
        ∙ get_or-overlay b (2 + 2 * i) (le16 c) 0 _ 0 (omega arith) (omega arith) (omega arith)

    high : get_or (put_chars s (i + 1) stored) (2 + 2 * (i + 0) + 1) 0 ≡ c / 256
    high =
        put_chars_below s (i + 1) stored (2 + 2 * (i + 0) + 1) (omega arith)
        ∙ get_or-overlay b (2 + 2 * i) (le16 c) 1 _ 0 (omega arith) (omega arith) (omega arith)
put_chars_half (c ∷ s) i b (suc k) fits lt =
    let e : 2 + 2 * (i + suc k) ≡ 2 + 2 * (i + 1 + k) = omega arith in
    rw e (
      put_chars_half s (i + 1) (overlay b (2 + 2 * i) (le16 c)) k
        (omega (arith, length-overlay b (2 + 2 * i) (le16 c))) (omega arith))

get_or-take : (n : ℕ) (s : List ℕ) (k : ℕ) → k < n → get_or (take n s) k 0 ≡ get_or s k 0
get_or-take zero s k lt = elim lt [ ]
get_or-take (suc n) [] k lt = refl
get_or-take (suc n) (c ∷ s) zero lt = refl
get_or-take (suc n) (c ∷ s) (suc k) lt = get_or-take n s k (omega arith)

length-take-strlen : (s : List ℕ) → length (take (strlen s) s) ≡ strlen s
unfolding strlen
length-take-strlen [] = refl
length-take-strlen (c ∷ s) = ground (arith, length-take-strlen s)

-- For a number from 1 on that is in the table, in English, a string whose descriptor is shorter
-- than 256 bytes and a buffer of at least 256: the answer has two bytes more than twice the
-- characters, which the first byte says; the second one is the type, and character `k` is the
-- half-word `k` behind them.
pub string_descriptor_reads :
    (i k : ℕ) (u : Usb)
    → let text = get_or u.strings i [] in
      i < length u.strings
      → k < strlen text
      → strlen text * 2 + 2 < 256
      → 256 ≤ length u.dfu.buffer
      → let r = string_descriptor (i + 1) 0x409 u in
        (r.0 ≡ handled)
        × (r.1.datasize ≡ strlen text * 2 + 2)
        × (get_or r.1.dfu.buffer 0 0 ≡ strlen text * 2 + 2)
        × (get_or r.1.dfu.buffer 1 0 ≡ usb_dt_string)
        × (half_at r.1.dfu.buffer (2 + 2 * k) ≡ get_or text k 0)
unfolding string_descriptor get_string
string_descriptor_reads i k u inside lt short large =
    rw (numbered, index, listed, size) (refl, refl, first, second, character)
  where
    text : List ℕ
    text = get_or u.strings i []

    numbered : (i + 1 == 0) ≡ false
    numbered = ground arith

    index : i + 1 - 1 ≡ i
    index = omega arith

    listed : leb (length u.strings) i ≡ false
    listed = ground arith

    size : u8 (strlen text * 2 + 2) ≡ strlen text * 2 + 2
    size = omega arith

    -- The buffer before the characters.
    headed : List ℕ
    headed = set (set u.dfu.buffer 1 usb_dt_string) 0 (strlen text * 2 + 2)

    chars : List ℕ
    chars = take (strlen text) text

    headed_length : length headed ≡ length u.dfu.buffer
    headed_length =
        length-set (set u.dfu.buffer 1 usb_dt_string) 0 (strlen text * 2 + 2)
        ∙ length-set u.dfu.buffer 1 usb_dt_string

    first : get_or (put_chars chars 0 headed) 0 0 ≡ strlen text * 2 + 2
    first =
        put_chars_below chars 0 headed 0 (omega arith)
        ∙ get_or-set_self (set u.dfu.buffer 1 usb_dt_string) 0 (strlen text * 2 + 2) 0
            (omega (arith, length-set u.dfu.buffer 1 usb_dt_string))

    second : get_or (put_chars chars 0 headed) 1 0 ≡ usb_dt_string
    second =
        put_chars_below chars 0 headed 1 (omega arith)
        ∙ get_or-set_ne (set u.dfu.buffer 1 usb_dt_string) 0 1 (strlen text * 2 + 2) 0 (omega arith)
        ∙ get_or-set_self u.dfu.buffer 1 usb_dt_string 0 (omega arith)

    character : half_at (put_chars chars 0 headed) (2 + 2 * k) ≡ get_or text k 0
    character =
        ap (λ j. half_at (put_chars chars 0 headed) (2 + 2 * j))
          (let e : k ≡ 0 + k = omega arith in e)
        ∙ put_chars_half chars 0 headed k (omega (arith, headed_length, length-take-strlen text))
            (omega (arith, length-take-strlen text))
        ∙ get_or-take (strlen text) text k lt
