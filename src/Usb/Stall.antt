-- ===== src/Usb/Stall.antt =====
-- What `ep_stall_set` of src/usb.cpp leaves in the register of endpoint 0.
use ln_dso_stm32_dfu_bootloa.Common.{
  ℕ, ◌/◌, ◌%◌, ◌<◌, ◌≡◌, refl, true, ◌==◌, ◌∷◌, bit_and, bit_or, not16, u16, arith, ==→eq,
  holds_below_sound, HasBytes-eq, bytes_of, bit_and-HasBytes, bit_or-HasBytes, ◌∙◌, ap, sym,
}
use ln_dso_stm32_dfu_bootloa.Machine.{Machine, Log, Answer, read, write, word, value, load, store}
use ln_dso_stm32_dfu_bootloa.Usb.Regs.{
  stall, rx_stat, tx_stat, usb_ep_reg, usb_ep_rx_stat, usb_ep_tx_stat, get_reg, set_reg,
  tog_set_reg_bit_msk_and_set, usb_set_ep_rx_stat, usb_set_ep_tx_stat,
}
use ln_dso_stm32_dfu_bootloa.Usb.Register.{after_write, none_done, completed, completed_none, bytes}
use ln_dso_stm32_dfu_bootloa.Usb.Toggle.{rx_value, tx_value, set_rx_stat, set_tx_stat}
use ln_dso_stm32_dfu_bootloa.Usb.Packet.{ep_stall_set}

-- A load of the register of endpoint 0 after the accesses `log`, and the store of `x` that follows it.
abbrev pub changed : ℕ → Log → Log
changed x log = write word (usb_ep_reg 0) x ∷ read word (usb_ep_reg 0) ∷ log

abbrev pub loaded : Answer → Log → ℕ
loaded answer log = u16 (value answer log word (usb_ep_reg 0))

-- The last accesses change the register of endpoint 0 twice: the first store makes its STAT_TX STALL,
-- the second its STAT_RX, and leaves its STAT_TX as it is by then.
pub record IsStalled (m : Machine) : Type 0 where
  pub start : Log
  pub tx : ℕ
  pub rx : ℕ
  pub accesses : m.log ≡ changed rx (changed tx start)
  pub tx_stalls : bit_and (after_write (loaded m.answer start) tx) usb_ep_tx_stat ≡ tx_stat stall
  pub rx_stalls :
      bit_and (after_write (loaded m.answer (changed tx start)) rx) usb_ep_rx_stat ≡ rx_stat stall
  pub tx_kept :
      bit_and (after_write (loaded m.answer (changed tx start)) rx) usb_ep_tx_stat
      ≡ bit_and (loaded m.answer (changed tx start)) usb_ep_tx_stat

rx_field :
    (v : ℕ)
    → v < 65536
    → bit_and (bit_or (bit_and v (not16 usb_ep_rx_stat)) (rx_stat stall)) usb_ep_rx_stat
      ≡ rx_stat stall
rx_field v lt =
    HasBytes-eq
      (bit_and-HasBytes
        (bit_or-HasBytes (bit_and-HasBytes (bytes_of v) (bytes 0xcf 0xff (omega arith)))
          (bytes 0x10 0 (omega arith)))
        (bytes 0x30 0 (omega arith)))
      (bytes 0x10 0 (omega arith))
      (==→eq _ _ (
        holds_below_sound (λ (b : ℕ). bit_and (bit_or (bit_and b 0xcf) 0x10) 0x30 == 0x10) 256
          (v / 256) refl (omega arith)))
      (==→eq _ _ (
        holds_below_sound (λ (b : ℕ). bit_and (bit_or (bit_and b 0xff) 0) 0 == 0) 256 (v % 256) refl
          (omega arith)))

other_field :
    (v : ℕ)
    → v < 65536
    → bit_and (bit_or (bit_and v (not16 usb_ep_rx_stat)) (rx_stat stall)) usb_ep_tx_stat
      ≡ bit_and v usb_ep_tx_stat
other_field v lt =
    HasBytes-eq
      (bit_and-HasBytes
        (bit_or-HasBytes (bit_and-HasBytes (bytes_of v) (bytes 0xcf 0xff (omega arith)))
          (bytes 0x10 0 (omega arith)))
        (bytes 0 0x30 (omega arith)))
      (bit_and-HasBytes (bytes_of v) (bytes 0 0x30 (omega arith)))
      (==→eq _ _ (
        holds_below_sound (λ (b : ℕ). bit_and (bit_or (bit_and b 0xcf) 0x10) 0 == bit_and b 0) 256
          (v / 256) refl (omega arith)))
      (==→eq _ _ (
        holds_below_sound (λ (b : ℕ). bit_and (bit_or (bit_and b 0xff) 0) 0x30 == bit_and b 0x30)
          256 (v % 256) refl (omega arith)))

tx_field :
    (v : ℕ)
    → v < 65536
    → bit_and (bit_or (bit_and v (not16 usb_ep_tx_stat)) (tx_stat stall)) usb_ep_tx_stat
      ≡ tx_stat stall
tx_field v lt =
    HasBytes-eq
      (bit_and-HasBytes
        (bit_or-HasBytes (bit_and-HasBytes (bytes_of v) (bytes 0xff 0xcf (omega arith)))
          (bytes 0 0x10 (omega arith)))
        (bytes 0 0x30 (omega arith)))
      (bytes 0 0x10 (omega arith))
      (==→eq _ _ (
        holds_below_sound (λ (b : ℕ). bit_and (bit_or (bit_and b 0xff) 0) 0 == 0) 256 (v / 256) refl
          (omega arith)))
      (==→eq _ _ (
        holds_below_sound (λ (b : ℕ). bit_and (bit_or (bit_and b 0xcf) 0x10) 0x30 == 0x10) 256
          (v % 256) refl (omega arith)))

tx_after :
    (v : ℕ) → v < 65536 → bit_and (after_write v (tx_value stall v)) usb_ep_tx_stat ≡ tx_stat stall
tx_after v lt =
    ap (λ w. bit_and (after_write w (tx_value stall v)) usb_ep_tx_stat) (sym (completed_none v lt))
    ∙ ap (λ w. bit_and w usb_ep_tx_stat) (set_tx_stat stall v lt none_done refl)
    ∙ tx_field (completed none_done v) (rw (completed_none v lt) lt)

rx_after :
    (v : ℕ) → v < 65536 → bit_and (after_write v (rx_value stall v)) usb_ep_rx_stat ≡ rx_stat stall
rx_after v lt =
    ap (λ w. bit_and (after_write w (rx_value stall v)) usb_ep_rx_stat) (sym (completed_none v lt))
    ∙ ap (λ w. bit_and w usb_ep_rx_stat) (set_rx_stat stall v lt none_done refl)
    ∙ rx_field (completed none_done v) (rw (completed_none v lt) lt)

other_after :
    (v : ℕ)
    → v < 65536
    → bit_and (after_write v (rx_value stall v)) usb_ep_tx_stat ≡ bit_and v usb_ep_tx_stat
other_after v lt =
    ap (λ w. bit_and (after_write w (rx_value stall v)) usb_ep_tx_stat) (sym (completed_none v lt))
    ∙ ap (λ w. bit_and w usb_ep_tx_stat) (set_rx_stat stall v lt none_done refl)
    ∙ other_field (completed none_done v) (rw (completed_none v lt) lt)
    ∙ ap (λ w. bit_and w usb_ep_tx_stat) (completed_none v lt)

pub ep_stall_set-IsStalled : (m : Machine) → IsStalled (ep_stall_set 0 true m)
unfolding ep_stall_set usb_set_ep_rx_stat usb_set_ep_tx_stat tog_set_reg_bit_msk_and_set get_reg
    set_reg load store
ep_stall_set-IsStalled m = record {
  start = m.log;
  tx = tx_value stall (loaded m.answer m.log);
  rx = rx_value stall (loaded m.answer (changed (tx_value stall (loaded m.answer m.log)) m.log));
  accesses = refl;
  tx_stalls = tx_after (loaded m.answer m.log) (omega arith);
  rx_stalls =
      rx_after (loaded m.answer (changed (tx_value stall (loaded m.answer m.log)) m.log))
        (omega arith);
  tx_kept =
      other_after (loaded m.answer (changed (tx_value stall (loaded m.answer m.log)) m.log))
        (omega arith);
}
