-- ===== src/Common/Bits.antt =====
-- The bitwise operations on two-byte numbers act on each byte.
use Prim.Native.Nat.{
  ℕ, zero, suc, ◌+◌, ◌*◌, ◌/◌, ◌%◌, ◌≤◌, ◌<◌, min, max, digits, differ, bit_and, bit_or, bit_xor,
  bit_and-bitwise, bit_or-bitwise, bit_xor-bitwise,
}
use native.Mathlib.Nat.{add-zero, mul-one}
use mathlib.Core.Path.{◌≡◌, refl}
use native.Mathlib.Omega.{arith}

digits_fuel :
    (z : ℕ → ℕ) (f : ℕ → ℕ → ℕ) (n m a b : ℕ) → a ≤ n → a ≤ m → digits z f n a b ≡ digits z f m a b
digits_fuel z f zero zero a b p q = refl
digits_fuel z f zero (suc m) zero b p q = refl
digits_fuel z f zero (suc m) (suc a) b p q = absurd (omega arith)
digits_fuel z f (suc n) zero zero b p q = refl
digits_fuel z f (suc n) zero (suc a) b p q = absurd (omega arith)
digits_fuel z f (suc n) (suc m) zero b p q = refl
digits_fuel z f (suc n) (suc m) (suc a) b p q =
    omega (arith, digits_fuel z f n m (suc a / 2) (b / 2) (omega arith) (omega arith))

and_step : (a b : ℕ) → bit_and a b ≡ bit_and (a / 2) (b / 2) * 2 + min (a % 2) (b % 2)
and_step zero b = omega (arith, bit_and-bitwise 0 b, bit_and-bitwise 0 (b / 2))
and_step (suc a) b = omega (
  arith,
  bit_and-bitwise (suc a) b,
  bit_and-bitwise (suc a / 2) (b / 2),
  digits_fuel (λ b. 0) min a (suc a / 2) (suc a / 2) (b / 2) (omega arith) (omega arith),
)

or_step : (a b : ℕ) → bit_or a b ≡ bit_or (a / 2) (b / 2) * 2 + max (a % 2) (b % 2)
or_step zero b = omega (arith, bit_or-bitwise 0 b, bit_or-bitwise 0 (b / 2))
or_step (suc a) b = omega (
  arith,
  bit_or-bitwise (suc a) b,
  bit_or-bitwise (suc a / 2) (b / 2),
  digits_fuel (λ b. b) max a (suc a / 2) (suc a / 2) (b / 2) (omega arith) (omega arith),
)

xor_step : (a b : ℕ) → bit_xor a b ≡ bit_xor (a / 2) (b / 2) * 2 + differ (a % 2) (b % 2)
xor_step zero b = ground (arith, bit_xor-bitwise 0 b, bit_xor-bitwise 0 (b / 2))
xor_step (suc a) b = omega (
  arith,
  bit_xor-bitwise (suc a) b,
  bit_xor-bitwise (suc a / 2) (b / 2),
  digits_fuel (λ b. b) differ a (suc a / 2) (suc a / 2) (b / 2) (omega arith) (omega arith),
)

-- On numbers of two digits in base `w`, `op` acts on each digit, and its results are digits.
abbrev IsDigitwise : (ℕ → ℕ → ℕ) → ℕ → Type 0
IsDigitwise op w =
    (a b c d : ℕ)
    → b < w
    → d < w
    → (op (a * w + b) (c * w + d) ≡ op a c * w + op b d) × (op b d < w)

module _ (op f : ℕ → ℕ → ℕ) (step : (a b : ℕ) → op a b ≡ op (a / 2) (b / 2) * 2 + f (a % 2) (b % 2))
    (is_bit : (a b : ℕ) → a < 2 → b < 2 → f a b < 2) where
  one-IsDigitwise : IsDigitwise op 1
  one-IsDigitwise a b c d hb hd =
      let zeros : op 0 0 ≡ 0 = omega (arith, step 0 0) in
      let eb : b ≡ 0 = omega arith in
      let ed : d ≡ 0 = omega arith in
      rw (eb, ed)
        (
          rw
              (
                mul-one a,
                mul-one c,
                mul-one (op a c),
                zeros,
                add-zero a,
                add-zero c,
                add-zero (op a c),
              )
              refl,
          omega (arith, zeros),
        )

  double-IsDigitwise : (w : ℕ) → IsDigitwise op w → IsDigitwise op (2 * w)
  double-IsDigitwise w ih a b c d hb hd =
      let ea : a * (2 * w) ≡ 2 * (a * w) = grind arith in
      let ec : c * (2 * w) ≡ 2 * (c * w) = grind arith in
      let eo : op a c * (2 * w) ≡ 2 * (op a c * w) = grind arith in
      let half_a : (a * (2 * w) + b) / 2 ≡ a * w + b / 2 = omega arith in
      let half_c : (c * (2 * w) + d) / 2 ≡ c * w + d / 2 = omega arith in
      let mod_a : (a * (2 * w) + b) % 2 ≡ b % 2 = omega arith in
      let mod_c : (c * (2 * w) + d) % 2 ≡ d % 2 = omega arith in
      let whole = rw (half_a, half_c, mod_a, mod_c) at (step (a * (2 * w) + b) (c * (2 * w) + d)) in
      let r = ih a (b / 2) c (d / 2) (omega arith) (omega arith) in
      let bit = is_bit (b % 2) (d % 2) (omega arith) (omega arith) in
      (omega (arith, whole, r.0, eo, step b d), omega (arith, r.1, bit, step b d))

  byte-IsDigitwise : IsDigitwise op 256
  byte-IsDigitwise = double-IsDigitwise 128 (
      double-IsDigitwise 64 (
        double-IsDigitwise 32 (
          double-IsDigitwise 16 (
            double-IsDigitwise 8 (
              double-IsDigitwise 4
                (double-IsDigitwise 2 (double-IsDigitwise 1 one-IsDigitwise)))))))

-- `x` has the bytes `hi` and `lo`.
pub record HasBytes (x hi lo : ℕ) : Type 0 where
  pub value : x ≡ hi * 256 + lo
  pub low : lo < 256

pub bytes_of : (x : ℕ) → HasBytes x (x / 256) (x % 256)
bytes_of x = record { value = omega arith; low = omega arith }

pub HasBytes-eq : {x y h h' l l' : ℕ} → HasBytes x h l → HasBytes y h' l' → h ≡ h' → l ≡ l' → x ≡ y
HasBytes-eq b b' p q = omega (arith, b.value, b'.value)

digit_bits :
    (f : ℕ → ℕ → ℕ)
    → f 0 0 < 2
    → f 0 1 < 2
    → f 1 0 < 2
    → f 1 1 < 2
    → (a b : ℕ) → a < 2
    → b < 2
    → f a b < 2
digit_bits f p q r s zero zero ha hb = p
digit_bits f p q r s zero (suc zero) ha hb = q
digit_bits f p q r s (suc zero) zero ha hb = r
digit_bits f p q r s (suc zero) (suc zero) ha hb = s
digit_bits f p q r s (suc (suc a)) b ha hb = absurd (omega arith)
digit_bits f p q r s zero (suc (suc b)) ha hb = absurd (omega arith)
digit_bits f p q r s (suc zero) (suc (suc b)) ha hb = absurd (omega arith)

bytewise :
    (op : ℕ → ℕ → ℕ)
    → IsDigitwise op 256
    → {x y h h' l l' : ℕ} → HasBytes x h l
    → HasBytes y h' l'
    → HasBytes (op x y) (op h h') (op l l')
bytewise op d {h = h} {h' = h'} {l = l} {l' = l'} b b' =
    let r = d h l h' l' b.low b'.low in record { value = rw (b.value, b'.value) (r.0); low = r.1 }

module _ {x y h h' l l' : ℕ} (b : HasBytes x h l) (b' : HasBytes y h' l') where
  pub bit_and-HasBytes : HasBytes (bit_and x y) (bit_and h h') (bit_and l l')
  bit_and-HasBytes =
      bytewise bit_and
        (byte-IsDigitwise bit_and min and_step
          (digit_bits min (omega arith) (omega arith) (omega arith) (omega arith)))
        b b'

  pub bit_or-HasBytes : HasBytes (bit_or x y) (bit_or h h') (bit_or l l')
  bit_or-HasBytes =
      bytewise bit_or
        (byte-IsDigitwise bit_or max or_step
          (digit_bits max (omega arith) (omega arith) (omega arith) (omega arith)))
        b b'

  pub bit_xor-HasBytes : HasBytes (bit_xor x y) (bit_xor h h') (bit_xor l l')
  bit_xor-HasBytes =
      bytewise bit_xor
        (byte-IsDigitwise bit_xor differ xor_step
          (digit_bits differ (omega arith) (omega arith) (omega arith) (omega arith)))
        b b'
