-- ===== src/Usb/Register.antt =====
-- The endpoint registers of the USB peripheral, as its manual describes them: what a store leaves.
use ln_dso_stm32_dfu_bootloa.Common.{
  ℕ, ◌+◌, ◌*◌, ◌<◌, ◌≡◌, refl, Bool, true, false, ◌∷◌, bit_and, bit_or, bit_xor, u8, u16, not16,
  ◌-◌, arith, ◌/◌, ◌%◌, ◌==◌, ==→eq, holds_below_sound, HasBytes, HasBytes-eq, bytes_of,
  bit_and-HasBytes, bit_or-HasBytes, bit_xor-HasBytes,
}
use ln_dso_stm32_dfu_bootloa.Machine.{Machine, read, write, word, value}
use ln_dso_stm32_dfu_bootloa.Usb.Regs.{usb_ep_reg}

-- What a write of `v` makes of a register that holds `old`, one byte of it: the bits of `ctr` are
-- cleared by a 0 and kept by a 1, those of `tog` are changed by a 1, those of `ro` cannot be written,
-- those of `rw` are stored.
abbrev pub after_byte : ℕ → ℕ → ℕ → ℕ → ℕ → ℕ → ℕ
after_byte ctr tog ro rw_bits old v =
    bit_or (bit_or (bit_and (bit_and old v) ctr) (bit_and (bit_xor old v) tog))
      (bit_or (bit_and old ro) (bit_and v rw_bits))

-- CTR_RX and CTR_TX; DTOG and STAT for both directions; SETUP; EP_TYPE, EP_KIND and EA.
abbrev pub after_write : ℕ → ℕ → ℕ
after_write = after_byte 0x8080 0x7070 0x0800 0x070f

-- The transfers that may complete between the load and the store of an endpoint that is neither
-- isochronous nor double-buffered: none, IN, OUT other than SETUP, both.
pub data Completed : Type 0 where
  none_done in_done out_done both_done : Completed

abbrev pub ctr_bits : Completed → ℕ
ctr_bits none_done = 0
ctr_bits in_done = 0x0080
ctr_bits out_done = 0x8000
ctr_bits both_done = 0x8080

-- The byte `b` in the byte of each direction that has completed.
abbrev pub each : Completed → ℕ → ℕ
each none_done b = 0
each in_done b = b
each out_done b = b * 256
each both_done b = b * 256 + b

-- What the completion makes of the register: CTR of the direction is set, its DTOG is toggled and its
-- STAT becomes NAK.
abbrev pub completed : Completed → ℕ → ℕ
completed c v = bit_or (bit_and (bit_xor v (each c 0x40)) (not16 (each c 0x30))) (each c 0xa0)

pub after-HasBytes :
    {ctr tog ro rw_bits old v : ℕ} {ch cl th tl oh ol wh wl h l vh vl : ℕ}
    → HasBytes ctr ch cl
    → HasBytes tog th tl
    → HasBytes ro oh ol
    → HasBytes rw_bits wh wl
    → HasBytes old h l
    → HasBytes v vh vl
    → HasBytes
        (after_byte ctr tog ro rw_bits old v)
        (after_byte ch th oh wh h vh)
        (after_byte cl tl ol wl l vl)
after-HasBytes bc bt bo bw b bv =
    bit_or-HasBytes
      (bit_or-HasBytes (bit_and-HasBytes (bit_and-HasBytes b bv) bc)
        (bit_and-HasBytes (bit_xor-HasBytes b bv) bt))
      (bit_or-HasBytes (bit_and-HasBytes b bo) (bit_and-HasBytes bv bw))

pub u16-HasBytes : {x h l : ℕ} → HasBytes x h l → HasBytes (u16 x) (u8 h) (u8 l)
u16-HasBytes b = record { value = omega (arith, b.value, b.low); low = omega arith }

-- The constants by their bytes.
pub bytes : (h l : ℕ) → l < 256 → HasBytes (h * 256 + l) h l
bytes h l lt = record { value = refl; low = lt }

abbrev pub ctr_byte : Bool → ℕ
ctr_byte true = 0x80
ctr_byte false = 0

abbrev pub out_is_done : Completed → Bool
out_is_done out_done = true
out_is_done both_done = true
out_is_done _ = false

abbrev pub in_is_done : Completed → Bool
in_is_done in_done = true
in_is_done both_done = true
in_is_done _ = false

abbrev pub byte_if : Bool → ℕ → ℕ
byte_if true b = b
byte_if false b = 0

-- One byte of a completion.
abbrev pub done_byte : Bool → ℕ → ℕ
done_byte e v =
    bit_or (bit_and (bit_xor v (byte_if e 0x40)) (255 - byte_if e 0x30)) (byte_if e 0xa0)

each-HasBytes :
    (c : Completed) (b : ℕ)
    → b < 256
    → HasBytes (each c b) (byte_if (out_is_done c) b) (byte_if (in_is_done c) b)
each-HasBytes none_done b lt = bytes 0 0 (omega arith)
each-HasBytes in_done b lt = record { value = omega arith; low = lt }
each-HasBytes out_done b lt = record { value = omega arith; low = omega arith }
each-HasBytes both_done b lt = record { value = omega arith; low = lt }

not_stat-HasBytes :
    (c : Completed)
    → HasBytes
        (not16 (each c 0x30))
        (255 - byte_if (out_is_done c) 0x30)
        (255 - byte_if (in_is_done c) 0x30)
not_stat-HasBytes none_done = bytes 0xff 0xff (omega arith)
not_stat-HasBytes in_done = bytes 0xff 0xcf (omega arith)
not_stat-HasBytes out_done = bytes 0xcf 0xff (omega arith)
not_stat-HasBytes both_done = bytes 0xcf 0xcf (omega arith)

pub completed-HasBytes :
    (c : Completed) {v h l : ℕ}
    → HasBytes v h l
    → HasBytes (completed c v) (done_byte (out_is_done c) h) (done_byte (in_is_done c) l)
completed-HasBytes c b =
    bit_or-HasBytes
      (bit_and-HasBytes (bit_xor-HasBytes b (each-HasBytes c 0x40 (omega arith)))
        (not_stat-HasBytes c))
      (each-HasBytes c 0xa0 (omega arith))

pub completed_none : (v : ℕ) → v < 65536 → completed none_done v ≡ v
completed_none v lt =
    HasBytes-eq (completed-HasBytes none_done (bytes_of v)) (bytes_of v)
      (same (v / 256) (omega arith)) (same (v % 256) (omega arith))
  where
    same : (b : ℕ) → b < 256 → done_byte false b ≡ b
    same b small =
        ==→eq _ _ (holds_below_sound (λ (x : ℕ). done_byte false x == x) 256 b refl small)

pub both : HasBytes 0x8080 0x80 0x80
both = bytes 0x80 0x80 (omega arith)

pub after_write-HasBytes :
    {old v h l vh vl : ℕ}
    → HasBytes old h l
    → HasBytes v vh vl
    → HasBytes
        (after_write old v)
        (after_byte 0x80 0x70 0x08 0x07 h vh)
        (after_byte 0x80 0x70 0 0x0f l vl)
after_write-HasBytes b bv =
    after-HasBytes both (bytes 0x70 0x70 (omega arith)) (bytes 0x08 0 (omega arith))
      (bytes 0x07 0x0f (omega arith)) b bv

-- The register's value before, and the load and the store of the macro `m'` of `m`.
abbrev pub ep_value : ℕ → Machine → ℕ
ep_value ep m = u16 (value m.answer m.log word (usb_ep_reg ep))

abbrev pub Writes : ℕ → Machine → Machine → ℕ → Type 0
Writes ep m m' x = m'.log ≡ write word (usb_ep_reg ep) x ∷ read word (usb_ep_reg ep) ∷ m.log
