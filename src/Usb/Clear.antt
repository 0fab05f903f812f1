-- ===== src/Usb/Clear.antt =====
-- The macros of src/usb.h that clear CTR and DTOG bits.
use ln_dso_stm32_dfu_bootloa.Common.{
  ℕ, ◌+◌, ◌*◌, ◌/◌, ◌%◌, ◌<◌, ◌≡◌, refl, Bool, true, false, ◌==◌, bit_and, bit_or, not16, u8, u16,
  ◌-◌, holds_below, holds_below_sound, ==→eq, arith, HasBytes, bytes_of, HasBytes-eq,
  bit_and-HasBytes, bit_or-HasBytes, if◌then◌else◌,
}
use ln_dso_stm32_dfu_bootloa.Machine.{Machine, load, store}
use ln_dso_stm32_dfu_bootloa.Usb.Regs.{
  get_reg, set_reg, usb_ep_ntoggle_msk, usb_ep_rx_ctr, usb_ep_tx_ctr, usb_ep_rx_dtog,
  usb_ep_tx_dtog, usb_clr_ep_rx_ctr, usb_clr_ep_tx_ctr, usb_clr_ep_rx_dtog, usb_clr_ep_tx_dtog,
  clr_reg_bit_msk_and_set,
}
use ln_dso_stm32_dfu_bootloa.Usb.Register.{
  after_byte, after_write, Completed, none_done, in_done, out_done, both_done, ctr_bits, ctr_byte,
  completed, done_byte, out_is_done, in_is_done, completed-HasBytes, both, bytes, u16-HasBytes,
  after_write-HasBytes, ep_value, Writes,
}

-- One byte: CTR is cleared where `clear` has its bit, and all else is what it is by then.
abbrev ctr_after : ℕ → ℕ → ℕ → Bool → ℕ → ℕ
ctr_after ro rw_bits clear done v = after_byte 0x80 0x70 ro rw_bits (done_byte done v) (
    u8
      (bit_or (bit_and (bit_and v (bit_or 0x80 (bit_or ro rw_bits))) (255 - clear)) (0x80 - clear)))

abbrev clears : ℕ → ℕ → ℕ → Bool → ℕ → Bool
clears ro rw_bits clear done v =
    ctr_after ro rw_bits clear done v == bit_and (done_byte done v) (255 - clear)

high_clears : (clear done : Bool) → holds_below (clears 0x08 0x07 (ctr_byte clear) done) 256 ≡ true
high_clears true true = refl
high_clears true false = refl
high_clears false true = refl
high_clears false false = refl

low_clears : (clear done : Bool) → holds_below (clears 0 0x0f (ctr_byte clear) done) 256 ≡ true
low_clears true true = refl
low_clears true false = refl
low_clears false true = refl
low_clears false false = refl

-- The store that clears the CTR bits of the directions, and what it leaves.
abbrev ctr_store : Completed → ℕ → ℕ
ctr_store k v =
    u16 (bit_or (bit_and (bit_and v usb_ep_ntoggle_msk) (not16 (ctr_bits k))) (0x8080 - ctr_bits k))

-- The bytes of the two masks.
masks-HasBytes :
    (k : Completed)
    → HasBytes (not16 (ctr_bits k)) (255 - ctr_byte (out_is_done k)) (255 - ctr_byte (in_is_done k))
      × HasBytes
          (0x8080 - ctr_bits k)
          (0x80 - ctr_byte (out_is_done k))
          (0x80 - ctr_byte (in_is_done k))
masks-HasBytes none_done = (bytes 0xff 0xff (omega arith), both)
masks-HasBytes in_done = (bytes 0xff 0x7f (omega arith), bytes 0x80 0 (omega arith))
masks-HasBytes out_done = (bytes 0x7f 0xff (omega arith), bytes 0 0x80 (omega arith))
masks-HasBytes both_done = (bytes 0x7f 0x7f (omega arith), bytes 0 0 (omega arith))

clears_ctr :
    (k c : Completed) (v : ℕ)
    → v < 65536
    → after_write (completed c v) (ctr_store k v) ≡ bit_and (completed c v) (not16 (ctr_bits k))
clears_ctr k c v lt =
    HasBytes-eq
      (after_write-HasBytes now (
        u16-HasBytes (
          bit_or-HasBytes
            (bit_and-HasBytes (bit_and-HasBytes (bytes_of v) (bytes 0x8f 0x8f (omega arith)))
              (masks-HasBytes k).0)
            (masks-HasBytes k).1)))
      (bit_and-HasBytes now (masks-HasBytes k).0)
      (==→eq _ _ (
        holds_below_sound (clears 0x08 0x07 (ctr_byte (out_is_done k)) (out_is_done c)) 256
          (v / 256) (high_clears (out_is_done k) (out_is_done c)) (omega arith)))
      (==→eq _ _ (
        holds_below_sound (clears 0 0x0f (ctr_byte (in_is_done k)) (in_is_done c)) 256 (v % 256)
          (low_clears (in_is_done k) (in_is_done c)) (omega arith)))
  where
    now :
        HasBytes
          (completed c v)
          (done_byte (out_is_done c) (v / 256))
          (done_byte (in_is_done c) (v % 256))
    now = completed-HasBytes c (bytes_of v)

-- `USB_CLR_EP_RX_CTR` and `USB_CLR_EP_TX_CTR` are a load and a store of the endpoint's register that
-- clear CTR of their direction and leave every other bit of the register as it is by then, also CTR of
-- the other direction where a transfer completes between the two.
pub clr_ctr_clears :
    (ep : ℕ) (c : Completed) (m : Machine)
    → let now = completed c (ep_value ep m) in
      ((x : ℕ) × Writes ep m (usb_clr_ep_rx_ctr ep m) x
        × (after_write now x ≡ bit_and now (not16 usb_ep_rx_ctr)))
      × ((y : ℕ) × Writes ep m (usb_clr_ep_tx_ctr ep m) y
          × (after_write now y ≡ bit_and now (not16 usb_ep_tx_ctr)))
unfolding usb_clr_ep_rx_ctr usb_clr_ep_tx_ctr clr_reg_bit_msk_and_set get_reg set_reg load store
clr_ctr_clears ep c m = (
  (ctr_store out_done (ep_value ep m), refl, clears_ctr out_done c (ep_value ep m) (omega arith)),
  (ctr_store in_done (ep_value ep m), refl, clears_ctr in_done c (ep_value ep m) (omega arith)),
)

-- One byte of the clearing of DTOG where `dtog` has its bit: a CTR bit that is set since is lost, and
-- all else is what it is by then.
abbrev dtog_byte : ℕ → ℕ → ℕ → Bool → ℕ → Bool
dtog_byte ro rw_bits dtog done v =
    after_byte 0x80 0x70 ro rw_bits (done_byte done v)
      (u8 (bit_and v (bit_or (bit_or 0x80 (bit_or ro rw_bits)) dtog)))
    == bit_and (done_byte done v) (bit_and (bit_or v 0x7f) (255 - dtog))

high_dtog : holds_below (dtog_byte 0x08 0x07 0x40 false) 256 ≡ true
high_dtog = refl

low_dtog : holds_below (dtog_byte 0 0x0f 0x40 false) 256 ≡ true
low_dtog = refl

high_other : (e : Bool) → holds_below (dtog_byte 0x08 0x07 0 e) 256 ≡ true
high_other true = refl
high_other false = refl

low_other : (e : Bool) → holds_below (dtog_byte 0 0x0f 0 e) 256 ≡ true
low_other true = refl
low_other false = refl

dtog_after :
    (dh dl : ℕ) (c : Completed) (v : ℕ)
    → v < 65536
    → HasBytes (bit_or usb_ep_ntoggle_msk (dh * 256 + dl)) (bit_or 0x8f dh) (bit_or 0x8f dl)
    → HasBytes (not16 (dh * 256 + dl)) (255 - dh) (255 - dl)
    → holds_below (dtog_byte 0x08 0x07 dh (out_is_done c)) 256 ≡ true
    → holds_below (dtog_byte 0 0x0f dl (in_is_done c)) 256 ≡ true
    → after_write (completed c v) (u16 (bit_and v (bit_or usb_ep_ntoggle_msk (dh * 256 + dl))))
      ≡ bit_and (completed c v) (bit_and (bit_or v 0x7f7f) (not16 (dh * 256 + dl)))
dtog_after dh dl c v lt bm bn th tl =
    HasBytes-eq (after_write-HasBytes now (u16-HasBytes (bit_and-HasBytes (bytes_of v) bm)))
      (bit_and-HasBytes now
        (bit_and-HasBytes (bit_or-HasBytes (bytes_of v) (bytes 0x7f 0x7f (omega arith))) bn))
      (==→eq _ _
        (holds_below_sound (dtog_byte 0x08 0x07 dh (out_is_done c)) 256 (v / 256) th (omega arith)))
      (==→eq _ _
        (holds_below_sound (dtog_byte 0 0x0f dl (in_is_done c)) 256 (v % 256) tl (omega arith)))
  where
    now :
        HasBytes
          (completed c v)
          (done_byte (out_is_done c) (v / 256))
          (done_byte (in_is_done c) (v % 256))
    now = completed-HasBytes c (bytes_of v)

-- `USB_CLR_EP_RX_DTOG` and `USB_CLR_EP_TX_DTOG` are a load and a store of the endpoint's register.
-- Unless a transfer of their own direction completes between the two, they clear DTOG of the
-- direction and every CTR bit that was clear at the load, so that the CTR bit of a transfer of the
-- other direction that completes between the two is lost; every other bit is as it is by then.
pub clr_dtog_clears :
    (ep : ℕ) (other : Bool) (m : Machine)
    → let old = ep_value ep m in
      let after_in = completed (if other then in_done else none_done) old in
      let after_out = completed (if other then out_done else none_done) old in
      ((x : ℕ) × Writes ep m (usb_clr_ep_rx_dtog ep m) x
        × (after_write after_in x
            ≡ bit_and after_in (bit_and (bit_or old 0x7f7f) (not16 usb_ep_rx_dtog))))
      × ((y : ℕ) × Writes ep m (usb_clr_ep_tx_dtog ep m) y
          × (after_write after_out y
              ≡ bit_and after_out (bit_and (bit_or old 0x7f7f) (not16 usb_ep_tx_dtog))))
unfolding usb_clr_ep_rx_dtog usb_clr_ep_tx_dtog get_reg set_reg load store
clr_dtog_clears ep other m = (
  (u16 (bit_and (ep_value ep m) (bit_or usb_ep_ntoggle_msk usb_ep_rx_dtog)), refl, rx other),
  (u16 (bit_and (ep_value ep m) (bit_or usb_ep_ntoggle_msk usb_ep_tx_dtog)), refl, tx other),
)
  where
    rx :
        (e : Bool)
        → let now = completed (if e then in_done else none_done) (ep_value ep m) in
          after_write now (u16 (bit_and (ep_value ep m) (bit_or usb_ep_ntoggle_msk usb_ep_rx_dtog)))
          ≡ bit_and now (bit_and (bit_or (ep_value ep m) 0x7f7f) (not16 usb_ep_rx_dtog))
    rx true =
        dtog_after 0x40 0 in_done (ep_value ep m) (omega arith) (bytes 0xcf 0x8f (omega arith))
          (bytes 0xbf 0xff (omega arith)) high_dtog (low_other true)
    rx false =
        dtog_after 0x40 0 none_done (ep_value ep m) (omega arith) (bytes 0xcf 0x8f (omega arith))
          (bytes 0xbf 0xff (omega arith)) high_dtog (low_other false)

    tx :
        (e : Bool)
        → let now = completed (if e then out_done else none_done) (ep_value ep m) in
          after_write now (u16 (bit_and (ep_value ep m) (bit_or usb_ep_ntoggle_msk usb_ep_tx_dtog)))
          ≡ bit_and now (bit_and (bit_or (ep_value ep m) 0x7f7f) (not16 usb_ep_tx_dtog))
    tx true =
        dtog_after 0 0x40 out_done (ep_value ep m) (omega arith) (bytes 0x8f 0xcf (omega arith))
          (bytes 0xff 0xbf (omega arith)) (high_other true) low_dtog
    tx false =
        dtog_after 0 0x40 none_done (ep_value ep m) (omega arith) (bytes 0x8f 0xcf (omega arith))
          (bytes 0xff 0xbf (omega arith)) (high_other false) low_dtog
