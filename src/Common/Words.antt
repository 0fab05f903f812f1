-- ===== src/Common/Words.antt =====
-- Machine words as native numbers: wrap-around by `%`, little-endian bytes, complement.
use Prim.Native.Nat.{ℕ, ◌+◌, ◌-◌, ◌*◌, ◌%◌}
use Prim.Native.Char.{code}
use Prim.Native.String.{String}
use mathlib.Core.List.{List, [], ◌∷◌}
use ln_dso_stm32_dfu_bootloa.Common.Lists.{get_or}

abbrev pub u8 : ℕ → ℕ
u8 n = n % 256

abbrev pub u16 : ℕ → ℕ
u16 n = n % 65536

abbrev pub u32 : ℕ → ℕ
u32 n = n % 4294967296

-- `~x` on a uint16_t and on a uint32_t
abbrev pub not16 : ℕ → ℕ
not16 x = 65535 - x

abbrev pub not32 : ℕ → ℕ
not32 x = 4294967295 - x

-- a uint16_t read from a byte buffer at byte offset `i`, and a uint32_t
abbrev pub half_at : List ℕ → ℕ → ℕ
half_at buf i = get_or buf i 0 + 256 * get_or buf (i + 1) 0

abbrev pub word_at : List ℕ → ℕ → ℕ
word_at buf i = half_at buf i + 65536 * half_at buf (i + 2)

-- the bytes of an ASCII text
abbrev pub codes : String → List ℕ
codes String.[] = []
codes (String.◌∷◌ c s) = code c ∷ codes s
