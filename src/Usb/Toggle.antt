-- ===== src/Usb/Toggle.antt =====
-- The macros of src/usb.h that set a status field by the toggle mechanism.
use ln_dso_stm32_dfu_bootloa.Common.{
  ℕ, ◌/◌, ◌%◌, ◌<◌, ◌≡◌, refl, Bool, true, false, ◌==◌, bit_and, bit_or, not16, u8, u16, ◌-◌,
  holds_below, holds_below_sound, ==→eq, arith, HasBytes, bytes_of, HasBytes-eq, bit_and-HasBytes,
  bit_or-HasBytes, bit_xor-HasBytes, if◌then◌else◌,
}
use ln_dso_stm32_dfu_bootloa.Machine.{Machine, load, store}
use ln_dso_stm32_dfu_bootloa.Usb.Regs.{
  Stat, disabled, stall, nak, valid, rx_stat, tx_stat, usb_ep_rx_stat, usb_ep_tx_stat,
  usb_ep_rx_stat_tog_msk, usb_ep_tx_stat_tog_msk, toggle_value, get_reg, set_reg,
  tog_set_reg_bit_msk_and_set, usb_set_ep_rx_stat, usb_set_ep_tx_stat,
}
use ln_dso_stm32_dfu_bootloa.Usb.Register.{
  after_byte, after_write, Completed, none_done, in_done, out_done, completed, done_byte,
  out_is_done, in_is_done, completed-HasBytes, both, bytes, u16-HasBytes, after_write-HasBytes,
  ep_value, Writes,
}

toggle-HasBytes :
    {v msk bit extra : ℕ} {h l mh ml bh bl eh el : ℕ}
    → HasBytes v h l
    → HasBytes msk mh ml
    → HasBytes bit bh bl
    → HasBytes extra eh el
    → HasBytes (toggle_value v msk bit extra) (toggle_value h mh bh eh) (toggle_value l ml bl el)
toggle-HasBytes b bm bb be = bit_or-HasBytes (bit_xor-HasBytes (bit_and-HasBytes b bm) bb) be

-- The status field of one direction in its byte, and CTR of one direction in its byte.
abbrev field : Stat → ℕ
field disabled = 0x00
field stall = 0x10
field nak = 0x20
field valid = 0x30

rx_stat-HasBytes : (s : Stat) → HasBytes (rx_stat s) (field s) 0
rx_stat-HasBytes disabled = bytes 0 0 (omega arith)
rx_stat-HasBytes stall = bytes 0x10 0 (omega arith)
rx_stat-HasBytes nak = bytes 0x20 0 (omega arith)
rx_stat-HasBytes valid = bytes 0x30 0 (omega arith)

tx_stat-HasBytes : (s : Stat) → HasBytes (tx_stat s) 0 (field s)
tx_stat-HasBytes disabled = bytes 0 0 (omega arith)
tx_stat-HasBytes stall = bytes 0 0x10 (omega arith)
tx_stat-HasBytes nak = bytes 0 0x20 (omega arith)
tx_stat-HasBytes valid = bytes 0 0x30 (omega arith)

-- One byte of the mechanism: the bits of `mask` become `bit`, and all else is what it is by then.
abbrev lhs : ℕ → ℕ → ℕ → ℕ → Bool → ℕ → ℕ
lhs ro rw_bits mask bit done v =
    after_byte 0x80 0x70 ro rw_bits (done_byte done v)
      (u8 (toggle_value v (bit_or mask (bit_or 0x80 (bit_or ro rw_bits))) bit 0x80))

abbrev rhs : ℕ → ℕ → Bool → ℕ → ℕ
rhs mask bit done v = bit_or (bit_and (done_byte done v) (255 - mask)) bit

abbrev sets : ℕ → ℕ → ℕ → ℕ → Bool → ℕ → Bool
sets ro rw_bits mask bit done v = lhs ro rw_bits mask bit done v == rhs mask bit done v

-- CTR is what it is by then, whether or not the direction completes.
abbrev keeps_ctr : ℕ → ℕ → ℕ → ℕ → Bool → ℕ → Bool
keeps_ctr ro rw_bits mask bit done v =
    bit_and (lhs ro rw_bits mask bit done v) 0x80 == bit_and (done_byte done v) 0x80

by_table : (same : ℕ → Bool) (v : ℕ) → holds_below same 256 ≡ true → v < 256 → same v ≡ true
by_table same v t lt = holds_below_sound same 256 v t lt

high_sets : (s : Stat) → holds_below (sets 0x08 0x07 0x30 (field s) false) 256 ≡ true
high_sets disabled = refl
high_sets stall = refl
high_sets nak = refl
high_sets valid = refl

low_sets : (s : Stat) → holds_below (sets 0 0x0f 0x30 (field s) false) 256 ≡ true
low_sets disabled = refl
low_sets stall = refl
low_sets nak = refl
low_sets valid = refl

high_stays : (e : Bool) → holds_below (sets 0x08 0x07 0 0 e) 256 ≡ true
high_stays true = refl
high_stays false = refl

low_stays : (e : Bool) → holds_below (sets 0 0x0f 0 0 e) 256 ≡ true
low_stays true = refl
low_stays false = refl

high_keeps :
    (s : Stat) (e : Bool)
    → (holds_below (keeps_ctr 0x08 0x07 0x30 (field s) e) 256 ≡ true)
      × (holds_below (keeps_ctr 0x08 0x07 0 0 e) 256 ≡ true)
high_keeps disabled true = (refl, refl)
high_keeps disabled false = (refl, refl)
high_keeps stall true = (refl, refl)
high_keeps stall false = (refl, refl)
high_keeps nak true = (refl, refl)
high_keeps nak false = (refl, refl)
high_keeps valid true = (refl, refl)
high_keeps valid false = (refl, refl)

low_keeps :
    (s : Stat) (e : Bool)
    → (holds_below (keeps_ctr 0 0x0f 0x30 (field s) e) 256 ≡ true)
      × (holds_below (keeps_ctr 0 0x0f 0 0 e) 256 ≡ true)
low_keeps disabled true = (refl, refl)
low_keeps disabled false = (refl, refl)
low_keeps stall true = (refl, refl)
low_keeps stall false = (refl, refl)
low_keeps nak true = (refl, refl)
low_keeps nak false = (refl, refl)
low_keeps valid true = (refl, refl)
low_keeps valid false = (refl, refl)

-- The value stored for each direction, by its bytes.
abbrev pub rx_value : Stat → ℕ → ℕ
rx_value s v = u16 (toggle_value v usb_ep_rx_stat_tog_msk (rx_stat s) 0x8080)

abbrev pub tx_value : Stat → ℕ → ℕ
tx_value s v = u16 (toggle_value v usb_ep_tx_stat_tog_msk (tx_stat s) 0x8080)

module _ (s : Stat) (v : ℕ) (lt : v < 65536) where
  rx_after-HasBytes :
      (c : Completed)
      → HasBytes
          (after_write (completed c v) (rx_value s v))
          (lhs 0x08 0x07 0x30 (field s) (out_is_done c) (v / 256))
          (lhs 0 0x0f 0 0 (in_is_done c) (v % 256))
  rx_after-HasBytes c = after_write-HasBytes (completed-HasBytes c (bytes_of v)) (
      u16-HasBytes
        (toggle-HasBytes (bytes_of v) (bytes 0xbf 0x8f (omega arith)) (rx_stat-HasBytes s) both))

  tx_after-HasBytes :
      (c : Completed)
      → HasBytes
          (after_write (completed c v) (tx_value s v))
          (lhs 0x08 0x07 0 0 (out_is_done c) (v / 256))
          (lhs 0 0x0f 0x30 (field s) (in_is_done c) (v % 256))
  tx_after-HasBytes c = after_write-HasBytes (completed-HasBytes c (bytes_of v)) (
      u16-HasBytes
        (toggle-HasBytes (bytes_of v) (bytes 0x8f 0xbf (omega arith)) (tx_stat-HasBytes s) both))

  -- The field of the direction, where no transfer of that direction completes.
  pub set_rx_stat :
      (c : Completed)
      → out_is_done c ≡ false
      → after_write (completed c v) (rx_value s v)
        ≡ bit_or (bit_and (completed c v) (not16 usb_ep_rx_stat)) (rx_stat s)
  set_rx_stat c own =
      HasBytes-eq (rx_after-HasBytes c)
        (bit_or-HasBytes
          (bit_and-HasBytes (completed-HasBytes c (bytes_of v)) (bytes 0xcf 0xff (omega arith)))
          (rx_stat-HasBytes s))
        (rw own (
          ==→eq _ _
            (by_table (sets 0x08 0x07 0x30 (field s) false) (v / 256) (high_sets s) (omega arith))))
        (==→eq _ _ (
          by_table (sets 0 0x0f 0 0 (in_is_done c)) (v % 256) (low_stays (in_is_done c))
            (omega arith)))

  pub set_tx_stat :
      (c : Completed)
      → in_is_done c ≡ false
      → after_write (completed c v) (tx_value s v)
        ≡ bit_or (bit_and (completed c v) (not16 usb_ep_tx_stat)) (tx_stat s)
  set_tx_stat c own =
      HasBytes-eq (tx_after-HasBytes c)
        (bit_or-HasBytes
          (bit_and-HasBytes (completed-HasBytes c (bytes_of v)) (bytes 0xff 0xcf (omega arith)))
          (tx_stat-HasBytes s))
        (==→eq _ _ (
          by_table (sets 0x08 0x07 0 0 (out_is_done c)) (v / 256) (high_stays (out_is_done c))
            (omega arith)))
        (rw own (
          ==→eq _ _
            (by_table (sets 0 0x0f 0x30 (field s) false) (v % 256) (low_sets s) (omega arith))))

  -- No completion is lost.
  rx_keeps_ctr :
      (c : Completed)
      → bit_and (after_write (completed c v) (rx_value s v)) 0x8080 ≡ bit_and (completed c v) 0x8080
  rx_keeps_ctr c =
      HasBytes-eq (bit_and-HasBytes (rx_after-HasBytes c) both)
        (bit_and-HasBytes (completed-HasBytes c (bytes_of v)) both)
        (==→eq _ _ (
          by_table (keeps_ctr 0x08 0x07 0x30 (field s) (out_is_done c)) (v / 256)
            (high_keeps s (out_is_done c)).0 (omega arith)))
        (==→eq _ _ (
          by_table (keeps_ctr 0 0x0f 0 0 (in_is_done c)) (v % 256) (low_keeps s (in_is_done c)).1
            (omega arith)))

  tx_keeps_ctr :
      (c : Completed)
      → bit_and (after_write (completed c v) (tx_value s v)) 0x8080 ≡ bit_and (completed c v) 0x8080
  tx_keeps_ctr c =
      HasBytes-eq (bit_and-HasBytes (tx_after-HasBytes c) both)
        (bit_and-HasBytes (completed-HasBytes c (bytes_of v)) both)
        (==→eq _ _ (
          by_table (keeps_ctr 0x08 0x07 0 0 (out_is_done c)) (v / 256)
            (high_keeps s (out_is_done c)).1 (omega arith)))
        (==→eq _ _ (
          by_table (keeps_ctr 0 0x0f 0x30 (field s) (in_is_done c)) (v % 256)
            (low_keeps s (in_is_done c)).0 (omega arith)))

-- `USB_SET_EP_RX_STAT` and `USB_SET_EP_TX_STAT` are a load and a store of the endpoint's register.
-- Unless a transfer of their own direction completes between the two, they leave the status asked for
-- in the field of the direction and every other bit of the register as it is by then, also where a
-- transfer of the other direction completes; and whichever of the IN and OUT transfers complete, no CTR bit is changed.
pub set_stat_sets :
    (ep : ℕ) (s : Stat) (other : Bool) (c : Completed) (m : Machine)
    → let now = completed c (ep_value ep m) in
      let after_in = completed (if other then in_done else none_done) (ep_value ep m) in
      let after_out = completed (if other then out_done else none_done) (ep_value ep m) in
      ((x : ℕ) × Writes ep m (usb_set_ep_rx_stat ep s m) x
        × (after_write after_in x ≡ bit_or (bit_and after_in (not16 usb_ep_rx_stat)) (rx_stat s))
        × (bit_and (after_write now x) 0x8080 ≡ bit_and now 0x8080))
      × ((y : ℕ) × Writes ep m (usb_set_ep_tx_stat ep s m) y
          × (after_write after_out y
              ≡ bit_or (bit_and after_out (not16 usb_ep_tx_stat)) (tx_stat s))
          × (bit_and (after_write now y) 0x8080 ≡ bit_and now 0x8080))
unfolding usb_set_ep_rx_stat usb_set_ep_tx_stat tog_set_reg_bit_msk_and_set get_reg set_reg load
    store
set_stat_sets ep s other c m = (
  (
    rx_value s (ep_value ep m),
    refl,
    set_rx_stat s (ep_value ep m) (omega arith) (if other then in_done else none_done)
        (rx_own other),
    rx_keeps_ctr s (ep_value ep m) (omega arith) c,
  ),
  (
    tx_value s (ep_value ep m),
    refl,
    set_tx_stat s (ep_value ep m) (omega arith) (if other then out_done else none_done)
        (tx_own other),
    tx_keeps_ctr s (ep_value ep m) (omega arith) c,
  ),
)
  where
    rx_own : (b : Bool) → out_is_done (if b then in_done else none_done) ≡ false
    rx_own true = refl
    rx_own false = refl

    tx_own : (b : Bool) → in_is_done (if b then out_done else none_done) ≡ false
    tx_own true = refl
    tx_own false = refl
