-- ===== src/Screen/Stream.antt =====
-- The bytes that `iliHS` of src/ili_hs.h gives out.
use ln_dso_stm32_dfu_bootloa.Common.{
  ℕ, zero, suc, ◌+◌, ◌-◌, ◌≤◌, ◌<◌, ◌≡◌, refl, true, false, ◌&&◌, List, [], ◌∷◌, ◌++◌, some, length,
  get_or, drop, overlay, ◌==◌, arith, ap, ◌∙◌, Bool-cases, inl, inr, length-overlay, get_or-overlay,
  ==→eq, length-replicate,
}
use ln_dso_stm32_dfu_bootloa.Screen.Hs.{
  Heatshrink, empty, is_empty, IliHs, ili_hs, refill, take_byte, next,
}

-- What heatshrink documents, for a relation between a decoder, the input bytes still to come and the
-- output bytes still to come: a poll puts out the next ones, as many as it likes and the buffer holds;
-- where it puts out none though there are more, it says that it is empty, and a sink then takes some
-- input.
pub record IsDecoder (h : Heatshrink) (Codes : h.Decoder → List ℕ → List ℕ → Type 0) : Type 0 where
  pub polled :
      (n : ℕ) (d : h.Decoder) (src out : List ℕ)
      → Codes d src out
      → (rest : List ℕ) × (out ≡ (h.poll d n).1 ++ rest)
        × (length (h.poll d n).1 ≤ n)
        × Codes (h.poll d n).2 src rest
  pub hungry :
      (n : ℕ) (d : h.Decoder) (src : List ℕ) (b : ℕ) (out : List ℕ) (size : ℕ)
      → 0 < n
      → 0 < size
      → Codes d src (b ∷ out)
      → (h.poll d n).1 ≡ []
      → ((h.poll d n).0 ≡ empty)
        × (k : ℕ) × ((h.sink (h.poll d n).2 src size).0 ≡ some k)
        × (0 < k)
        × (k ≤ length src)
        × Codes (h.sink (h.poll d n).2 src size).1 (drop k src) (b ∷ out)

-- `n` bytes of a buffer from `i` on.
abbrev slice : List ℕ → ℕ → ℕ → List ℕ
slice b i zero = []
slice b i (suc n) = get_or b i 0 ∷ slice b (i + 1) n

slice_of :
    (b : List ℕ) (i : ℕ) (xs : List ℕ)
    → ((j : ℕ) → j < length xs → get_or b (i + j) 0 ≡ get_or xs j 0)
    → slice b i (length xs) ≡ xs
slice_of b i [] h = refl
slice_of b i (x ∷ xs) h =
    let first : get_or b i 0 ≡ x =
      (let e : i + 0 ≡ i = omega arith in rw e at (h 0 (omega arith))) in
    let rest : slice b (i + 1) (length xs) ≡ xs =
      slice_of b (i + 1) xs
        (λ j lt. let e : i + 1 + j ≡ i + suc j = omega arith in rw e (h (suc j) (omega arith))) in
    rw (first, rest) refl

slice-overlay : (b xs : List ℕ) → length xs ≤ length b → slice (overlay b 0 xs) 0 (length xs) ≡ xs
slice-overlay b xs fits =
    slice_of (overlay b 0 xs) 0 xs (λ j lt. get_or-overlay b 0 xs j (0 + j) 0 refl lt (omega arith))

length-drop : (k : ℕ) (xs : List ℕ) → k ≤ length xs → length (drop k xs) + k ≡ length xs
length-drop zero xs le = omega arith
length-drop (suc k) [] le = absurd (omega arith)
length-drop (suc k) (x ∷ xs) le = omega (arith, length-drop k xs (omega arith))

sub_zero : (n : ℕ) → n - 0 ≡ n
sub_zero n = omega arith

no_bytes : (xs : List ℕ) → (length xs == 0) ≡ true → xs ≡ []
no_bytes [] e = refl
no_bytes (x ∷ xs) e = absurd (ground arith)

module _ (h : Heatshrink) (Codes : h.Decoder → List ℕ → List ℕ → Type 0) where
  -- The bytes that are still to come: those in the buffer, then the decoder's.
  pub record Yields (s : IliHs h) (out : List ℕ) : Type 0 where
    pub rest : List ℕ
    pub split : out ≡ slice s.decomp_buffer s.head (s.tail - s.head) ++ rest
    pub codes : Codes s.hsd s.p rest
    pub order : s.head ≤ s.tail
    pub bound : s.tail ≤ 64
    pub size : length s.decomp_buffer ≡ 64

  pub ili_hs-Yields : (bytes out : List ℕ) → Codes h.reset bytes out → Yields (ili_hs h bytes) out
  unfolding ili_hs
  ili_hs-Yields bytes out c = record {
    rest = out;
    split = refl;
    codes = c;
    order = omega arith;
    bound = omega arith;
    size = length-replicate {A = ℕ} 64 0;
  }

  take_byte-Yields :
      (s : IliHs h) (b : ℕ) (out : List ℕ)
      → s.head < s.tail
      → Yields s (b ∷ out)
      → ((take_byte h s).0 ≡ b) × Yields (take_byte h s).1 out
  unfolding take_byte
  take_byte-Yields s b out lt y =
      let e : s.tail - s.head ≡ suc (s.tail - (s.head + 1)) = omega arith in
      let split : b ∷ out
          ≡ get_or s.decomp_buffer s.head 0
            ∷ (slice s.decomp_buffer (s.head + 1) (s.tail - (s.head + 1)) ++ y.rest) =
        rw e at (y.split) in
      (
        cc,
        record {
          rest = y.rest;
          split = cc;
          codes = y.codes;
          order = omega arith;
          bound = y.bound;
          size = y.size;
        },
      )

  module _ (laws : IsDecoder h Codes) where
    refill-Yields :
        (fuel : ℕ) (s : IliHs h) (b : ℕ) (out : List ℕ)
        → length s.p < fuel
        → length s.decomp_buffer ≡ 64
        → Codes s.hsd s.p (b ∷ out)
        → (s' : IliHs h) × (refill h fuel s ≡ some s') × (s'.head < s'.tail) × Yields s' (b ∷ out)
    unfolding refill
    refill-Yields zero s b out lt size c = absurd (omega arith)
    refill-Yields (suc fuel) s b out lt size c =
        elim (Bool-cases (length (h.poll s.hsd 64).1 == 0)) [
          | inl nothing ↦
              let e : (h.poll s.hsd 64).1 ≡ [] = no_bytes _ nothing in
              let g = laws.hungry 64 s.hsd s.p b out 65536 (omega arith) (omega arith) c e in
              let t : (is_empty (h.poll s.hsd 64).0 && (length (h.poll s.hsd 64).1 == 0)) ≡ true =
                rw (g.0, nothing) refl in
              let r =
                refill-Yields fuel
                  (record s {
                    hsd = (h.sink (h.poll s.hsd 64).2 s.p 65536).1;
                    decomp_buffer = overlay s.decomp_buffer 0 (h.poll s.hsd 64).1;
                    p = drop g.1 s.p;
                  })
                  b out (omega (arith, length-drop g.1 s.p g.4, g.3))
                  (length-overlay s.decomp_buffer 0 (h.poll s.hsd 64).1 ∙ size) g.5 in
              (r.0, rw (t, g.2) (r.1), r.2, r.3)
          | inr something ↦
              let q = laws.polled 64 s.hsd s.p (b ∷ out) c in
              let t : (is_empty (h.poll s.hsd 64).0 && (length (h.poll s.hsd 64).1 == 0)) ≡ false =
                ground arith in
              let some_bytes : 0 < length (h.poll s.hsd 64).1 = ground arith in
              (
                record s {
                  hsd = (h.poll s.hsd 64).2;
                  decomp_buffer = overlay s.decomp_buffer 0 (h.poll s.hsd 64).1;
                  head = 0;
                  tail = length (h.poll s.hsd 64).1;
                },
                rw t refl,
                some_bytes,
                record {
                  rest = q.0;
                  split =
                      rw
                        (
                          sub_zero (length (h.poll s.hsd 64).1),
                          slice-overlay s.decomp_buffer (h.poll s.hsd 64).1
                              (omega (arith, q.2, size)),
                        )
                        (q.1);
                  codes = q.3;
                  order = omega arith;
                  bound = q.2;
                  size = length-overlay s.decomp_buffer 0 (h.poll s.hsd 64).1 ∙ size;
                },
              )
        ]

    -- Each call gives the next byte, and the loop at `again:` ends.
    pub next-Yields :
        (s : IliHs h) (b : ℕ) (out : List ℕ)
        → Yields s (b ∷ out)
        → (s' : IliHs h) × (next h s ≡ some (b, s')) × Yields s' out
    unfolding next
    next-Yields s b out y = elim (Bool-cases (s.head == s.tail)) [
      | inl drained ↦
          let e : s.tail - s.head ≡ 0 =
            (let e : s.head ≡ s.tail = ==→eq _ _ drained in omega arith) in
          let c : Codes s.hsd s.p (b ∷ out) = rw (rw e at (y.split)) (y.codes) in
          let r = refill-Yields (length s.p + 1) s b out (omega arith) y.size c in
          let t = take_byte-Yields r.0 b out r.2 r.3 in
          (
            (take_byte h r.0).1,
            rw (drained, r.1) (ap (λ v. some (v, (take_byte h r.0).1)) t.0),
            t.1,
          )
      | inr ready ↦
          let t = take_byte-Yields s b out (ground (arith, y.order)) y in
          ((take_byte h s).1, rw ready (ap (λ v. some (v, (take_byte h s).1)) t.0), t.1)
    ]
