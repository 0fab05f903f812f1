-- ===== src/Dfu/Serial.antt =====
-- The serial number of src/dfu.cpp, made of the chip's unique identifier.
use ln_dso_stm32_dfu_bootloa.Common.{
  ℕ, zero, suc, ◌+◌, ◌-◌, ◌*◌, ◌/◌, ◌%◌, ◌≤◌, ◌<◌, ◌≡◌, refl, List, [], ◌∷◌, ◌++◌, length, get_or,
  overlay, codes, ◌==◌, ltb, if◌then◌else◌, u32, arith, ==→eq, holds_below_sound, ◌∙◌, ap,
  get_or-overlay, get_or-append_left, get_or-append_right,
}
use ln_dso_stm32_dfu_bootloa.Machine.{Machine, Log, read, byte, value, load}

abbrev pub hcharset : List ℕ
hcharset = codes "0123456789abcdef"

abbrev pub unique_id : ℕ
unique_id = 0x1ffff7e8

-- The loop: `n` bytes are left, the next one is at `addr`; each is read twice.
unfoldable pub hex_digits : ℕ → ℕ → Machine → List ℕ × Machine
hex_digits zero addr m = ([], m)
hex_digits (suc n) addr m =
    let (high, m) = load byte addr m in
    let (low, m) = load byte addr m in
    let (rest, m) = hex_digits n (u32 (addr + 1)) m in
    (get_or hcharset (high / 16 % 16) 0 ∷ get_or hcharset (low % 16) 0 ∷ rest, m)

unfoldable pub get_dev_unique_id : List ℕ → Machine → List ℕ × Machine
get_dev_unique_id s m =
    let (digits, m) = hex_digits 9 unique_id m in (overlay s 0 (codes "DSO150" ++ digits), m)

-- The value of a hexadecimal digit.
abbrev pub digit : ℕ → ℕ
digit c = if ltb c 58 then c - 48 else c - 87

digit-hcharset : (d : ℕ) → d < 16 → digit (get_or hcharset d 0) ≡ d
digit-hcharset d lt =
    ==→eq (digit (get_or hcharset d 0)) d
      (holds_below_sound (λ d. digit (get_or hcharset d 0) == d) 16 d refl lt)

-- The identifier reads the same whenever it is read.
abbrev pub Identifies : Machine → (ℕ → ℕ) → ℕ → ℕ → Type 0
Identifies m id addr n = (k : ℕ) → k < n → (log : Log) → value m.answer log byte (addr + k) ≡ id k

hex_digits_read :
    (n addr : ℕ) (m : Machine) (id : ℕ → ℕ)
    → Identifies m id addr n
    → addr + n ≤ 0x100000000
    → (k : ℕ) → k < n
    → digit (get_or (hex_digits n addr m).0 (2 * k) 0) * 16
        + digit (get_or (hex_digits n addr m).0 (2 * k + 1) 0)
      ≡ id k
unfolding hex_digits load
hex_digits_read zero addr m id h b k lt = elim lt [ ]
hex_digits_read (suc n) addr m id h b zero lt =
    rw
      (
        here m.log,
        here (read byte addr ∷ m.log),
        digit-hcharset (id 0 / 16 % 16) (omega arith),
        digit-hcharset (id 0 % 16) (omega arith),
      )
      (omega (arith, here m.log))
  where
    here : (log : Log) → value m.answer log byte addr ≡ id 0
    here log =
        ap (value m.answer log byte) (let e : addr ≡ addr + 0 = omega arith in e)
        ∙ h 0 (omega arith) log
hex_digits_read (suc n) addr m id h b (suc k) lt =
    rw (even, odd)
      (hex_digits_read n (u32 (addr + 1)) twice (λ j. id (suc j)) next (omega arith) k
        (omega arith))
  where
    twice : Machine
    twice = record m { log = read byte addr ∷ read byte addr ∷ m.log }

    even : 2 * suc k ≡ suc (suc (2 * k))
    even = omega arith

    odd : suc (suc (2 * k)) + 1 ≡ suc (suc (2 * k + 1))
    odd = omega arith

    next : Identifies twice (λ j. id (suc j)) (u32 (addr + 1)) n
    next j small log =
        ap (value m.answer log byte) (let e : u32 (addr + 1) + j ≡ addr + suc j = omega arith in e)
        ∙ h (suc j) (omega arith) log

length-hex_digits : (n addr : ℕ) (m : Machine) → length (hex_digits n addr m).0 ≡ 2 * n
unfolding hex_digits load
length-hex_digits zero addr m = refl
length-hex_digits (suc n) addr m = omega (
  arith,
  length-hex_digits n (u32 (addr + 1)) (record m { log = read byte addr ∷ read byte addr ∷ m.log }),
)

-- If the chip's identifier reads the same whenever it is read, the serial number in a buffer of 25
-- characters starts with the six characters of "DSO150", and the two characters from `6 + 2 * k` on
-- are the hexadecimal digits of byte `k` of the identifier.
pub get_dev_unique_id_reads :
    (s : List ℕ) (m : Machine) (id : ℕ → ℕ) (j k : ℕ)
    → Identifies m id unique_id 9
    → length s ≡ 25
    → j < 6
    → k < 9
    → let r = (get_dev_unique_id s m).0 in
      (get_or r j 0 ≡ get_or (codes "DSO150") j 0)
      × (digit (get_or r (6 + 2 * k) 0) * 16 + digit (get_or r (6 + (2 * k + 1)) 0) ≡ id k)
unfolding get_dev_unique_id
get_dev_unique_id_reads s m id j k h size first lt = (
  copied j (omega arith) ∙ get_or-append_left (codes "DSO150") digits j 0 first,
  rw (at (2 * k) (omega arith), at (2 * k + 1) (omega arith))
      (hex_digits_read 9 unique_id m id h (omega arith) k lt),
)
  where
    digits : List ℕ
    digits = (hex_digits 9 unique_id m).0

    copied :
        (i : ℕ)
        → i < 24
        → get_or (overlay s 0 (codes "DSO150" ++ digits)) i 0
          ≡ get_or (codes "DSO150" ++ digits) i 0
    copied i small =
        get_or-overlay s 0 (codes "DSO150" ++ digits) i i 0 (omega arith)
          (omega (arith, length-hex_digits 9 unique_id m))
          (omega (arith, length-hex_digits 9 unique_id m))

    at :
        (i : ℕ)
        → i < 18
        → get_or (overlay s 0 (codes "DSO150" ++ digits)) (6 + i) 0 ≡ get_or digits i 0
    at i small =
        copied (6 + i) (omega arith)
        ∙ get_or-append_right (codes "DSO150") digits (6 + i) i 0 (omega arith)
