-- ===== src/Common/Lists.antt =====
-- Byte buffers: lists measured and indexed by native numbers, under the library's names.
use Prim.Native.Nat.{ℕ, zero, suc, ◌+◌, ◌<◌, ◌≤◌, min}
use mathlib.Core.Path.{◌≡◌, refl, ap, ◌∙◌}
use mathlib.Core.Logic.{◌≢◌}
use mathlib.Core.List.{List, [], ◌∷◌, ◌++◌}
use native.Mathlib.Omega.{arith}

module _ {ℓ} {A : Type ℓ} where
  abbrev pub length : List A → ℕ
  length [] = 0
  length (x ∷ xs) = suc (length xs)

  abbrev pub get_or : List A → ℕ → A → A
  get_or [] i d = d
  get_or (x ∷ xs) zero d = x
  get_or (x ∷ xs) (suc i) d = get_or xs i d

  -- A write out of bounds changes nothing.
  abbrev pub set : List A → ℕ → A → List A
  set [] i v = []
  set (x ∷ xs) zero v = v ∷ xs
  set (x ∷ xs) (suc i) v = x ∷ set xs i v

  abbrev pub take : ℕ → List A → List A
  take zero xs = []
  take (suc n) [] = []
  take (suc n) (x ∷ xs) = x ∷ take n xs

  abbrev pub drop : ℕ → List A → List A
  drop zero xs = xs
  drop (suc n) [] = []
  drop (suc n) (x ∷ xs) = drop n xs

  abbrev pub replicate : ℕ → A → List A
  replicate zero a = []
  replicate (suc n) a = a ∷ replicate n a

  -- The bytes of `src` stored at offset `i` of `dst`, in order; a byte past the end is dropped.
  abbrev pub overlay : List A → ℕ → List A → List A
  overlay dst i [] = dst
  overlay dst i (x ∷ xs) = overlay (set dst i x) (suc i) xs

  pub length-append : (xs ys : List A) → length (xs ++ ys) ≡ length xs + length ys
  length-append [] ys = omega arith
  length-append (x ∷ xs) ys = omega (arith, length-append xs ys)

  pub length-set : (xs : List A) (i : ℕ) (v : A) → length (set xs i v) ≡ length xs
  length-set [] i v = refl
  length-set (x ∷ xs) zero v = refl
  length-set (x ∷ xs) (suc i) v = ap suc (length-set xs i v)

  pub length-take : (n : ℕ) (xs : List A) → length (take n xs) ≡ min n (length xs)
  length-take zero xs = omega arith
  length-take (suc n) [] = omega arith
  length-take (suc n) (x ∷ xs) = omega (arith, length-take n xs)

  pub length-replicate : (n : ℕ) (a : A) → length (replicate n a) ≡ n
  length-replicate zero a = refl
  length-replicate (suc n) a = ap suc (length-replicate n a)

  pub get_or-set_self :
      (xs : List A) (i : ℕ) (v d : A) → i < length xs → get_or (set xs i v) i d ≡ v
  get_or-set_self [] i v d h = elim h [ ]
  get_or-set_self (x ∷ xs) zero v d h = refl
  get_or-set_self (x ∷ xs) (suc i) v d h = get_or-set_self xs i v d (omega arith)

  pub get_or-set_ne :
      (xs : List A) (i j : ℕ) (v d : A) → i ≢ j → get_or (set xs i v) j d ≡ get_or xs j d
  get_or-set_ne [] i j v d h = refl
  get_or-set_ne (x ∷ xs) zero zero v d h = absurd (h refl)
  get_or-set_ne (x ∷ xs) zero (suc j) v d h = refl
  get_or-set_ne (x ∷ xs) (suc i) zero v d h = refl
  get_or-set_ne (x ∷ xs) (suc i) (suc j) v d h = get_or-set_ne xs i j v d (λ e. h (ap suc e))

module _ {ℓ} {A : Type ℓ} where
  pub length-overlay :
      (dst : List A) (i : ℕ) (src : List A) → length (overlay dst i src) ≡ length dst
  length-overlay dst i [] = refl
  length-overlay dst i (x ∷ xs) =
      omega (arith, length-overlay (set dst i x) (suc i) xs, length-set dst i x)

  pub get_or-overlay_below :
      (dst : List A) (i : ℕ) (src : List A) (j : ℕ) (d : A)
      → j < i
      → get_or (overlay dst i src) j d ≡ get_or dst j d
  get_or-overlay_below dst i [] j d h = refl
  get_or-overlay_below dst i (x ∷ xs) j d h =
      get_or-overlay_below (set dst i x) (suc i) xs j d (omega arith)
      ∙ get_or-set_ne dst i j x d (omega arith)

  -- Byte `j` of the result is byte `k` of the source, for `j` inside the copy.
  pub get_or-overlay :
      (dst : List A) (i : ℕ) (src : List A) (k j : ℕ) (d : A)
      → i + k ≡ j
      → k < length src
      → i + length src ≤ length dst
      → get_or (overlay dst i src) j d ≡ get_or src k d
  get_or-overlay dst i [] k j d e h l = elim h [ ]
  get_or-overlay dst i (x ∷ xs) zero j d e h l =
      let same : i ≡ j = omega arith in
      rw (← same) (
        get_or-overlay_below (set dst i x) (suc i) xs i d (omega arith)
        ∙ get_or-set_self dst i x d (omega arith))
  get_or-overlay dst i (x ∷ xs) (suc k) j d e h l =
      get_or-overlay (set dst i x) (suc i) xs k j d (omega arith) (omega arith)
        (omega (arith, length-set dst i x))

  -- A byte past the copy keeps its value.
  pub get_or-overlay_above :
      (dst : List A) (i : ℕ) (src : List A) (j : ℕ) (d : A)
      → i + length src ≤ j
      → get_or (overlay dst i src) j d ≡ get_or dst j d
  get_or-overlay_above dst i [] j d h = refl
  get_or-overlay_above dst i (x ∷ xs) j d h =
      get_or-overlay_above (set dst i x) (suc i) xs j d (omega arith)
      ∙ get_or-set_ne dst i j x d (omega arith)

  pub get_or-append_left :
      (xs ys : List A) (i : ℕ) (d : A) → i < length xs → get_or (xs ++ ys) i d ≡ get_or xs i d
  get_or-append_left [] ys i d h = elim h [ ]
  get_or-append_left (x ∷ xs) ys zero d h = refl
  get_or-append_left (x ∷ xs) ys (suc i) d h = get_or-append_left xs ys i d (omega arith)

  pub get_or-append_right :
      (xs ys : List A) (i j : ℕ) (d : A) → length xs + j ≡ i → get_or (xs ++ ys) i d ≡ get_or ys j d
  get_or-append_right [] ys i j d e = ap (λ i. get_or ys i d) (let h : i ≡ j = omega arith in h)
  get_or-append_right (x ∷ xs) ys zero j d e = absurd (omega arith)
  get_or-append_right (x ∷ xs) ys (suc i) j d e = get_or-append_right xs ys i j d (omega arith)
