-- ===== src/Usb/Safe.antt =====
-- The accesses of src/usb.cpp to the peripheral's registers and to its buffer table.
use ln_dso_stm32_dfu_bootloa.Common.{
  inr, ℕ, ◌+◌, ◌*◌, ◌≤◌, ◌<◌, ◌≡◌, ◌≢◌, Bool, true, false, u16, arith, if◌then◌else◌,
}
use ln_dso_stm32_dfu_bootloa.Machine.{Machine, Answer, Log, Width, word, half, value, load, store}
use ln_dso_stm32_dfu_bootloa.Config.{Config}
use ln_dso_stm32_dfu_bootloa.Flash.{flash_ar}
use ln_dso_stm32_dfu_bootloa.Flash.Safe.{AllSafe}
use ln_dso_stm32_dfu_bootloa.Usb.Regs.{
  usb_btable_reg, usb_pma_base, usb_ep_reg, Stat, Entry, tx_addr, tx_count, rx_addr, rx_count,
  get_reg, set_reg, tog_set_reg_bit_msk_and_set, usb_set_ep_rx_stat, usb_set_ep_tx_stat, entry_reg,
  entry_offset, get_entry, set_entry, get_ep_buff,
}

-- What the code relies on in the peripheral: the buffer table stays at offset 0, where `usb_init` puts
-- it, and the TX buffer of the control endpoint starts in the packet memory of 512 bytes.
pub record Layout (answer : Answer) : Type 0 where
  pub btable : (log : Log) → value answer log word usb_btable_reg ≡ 0
  pub tx : (log : Log) → u16 (value answer log word usb_pma_base) ≤ 512

pub record IsSafeSoFar (cfg : Config) (m : Machine) : Type 0 where
  pub safe : AllSafe cfg m
  pub layout : Layout m.answer

module _ (cfg : Config) where
  pub load-Safe :
      (w : Width) (a : ℕ) (m : Machine) → IsSafeSoFar cfg m → IsSafeSoFar cfg (load w a m).1
  unfolding load
  load-Safe w a m h = record { safe = (tt, h.safe); layout = h.layout }

  pub store-Safe :
      (a v : ℕ) (m : Machine)
      → 0x40000000 ≤ a
      → a ≢ flash_ar
      → IsSafeSoFar cfg m
      → IsSafeSoFar cfg (store word a v m)
  unfolding store
  store-Safe a v m lo ne h = record { safe = ((lo, λ e. absurd (ne e)), h.safe); layout = h.layout }

  pub store_port-Safe :
      (a v : ℕ) (m : Machine)
      → 0x40010000 ≤ a
      → a < 0x40020000
      → IsSafeSoFar cfg m
      → IsSafeSoFar cfg (store half a v m)
  unfolding store
  store_port-Safe a v m lo hi h = record { safe = (inr (lo, hi), h.safe); layout = h.layout }

  pub if-Safe :
      (b : Bool) (m m' : Machine)
      → IsSafeSoFar cfg m
      → IsSafeSoFar cfg m'
      → IsSafeSoFar cfg (if b then m else m')
  if-Safe true m m' h h' = h
  if-Safe false m m' h h' = h'

  pub if_pair-Safe :
      {A : Type 0} (b : Bool) (p q : A × Machine)
      → IsSafeSoFar cfg p.1
      → IsSafeSoFar cfg q.1
      → IsSafeSoFar cfg (if b then p else q).1
  if_pair-Safe true p q h h' = h
  if_pair-Safe false p q h h' = h'

  pub set_reg-Safe :
      (a v : ℕ) (m : Machine)
      → 0x40000000 ≤ a
      → a < flash_ar
      → IsSafeSoFar cfg m
      → IsSafeSoFar cfg (set_reg a v m)
  unfolding set_reg
  set_reg-Safe a v m lo hi h = store-Safe a (u16 v) m lo (omega arith) h

  pub get_reg-Safe : (a : ℕ) (m : Machine) → IsSafeSoFar cfg m → IsSafeSoFar cfg (get_reg a m).1
  unfolding get_reg
  get_reg-Safe a m h = load-Safe word a m h

  toggle-Safe :
      (a msk bit extra : ℕ) (m : Machine)
      → 0x40000000 ≤ a
      → a < flash_ar
      → IsSafeSoFar cfg m
      → IsSafeSoFar cfg (tog_set_reg_bit_msk_and_set a msk bit extra m)
  unfolding tog_set_reg_bit_msk_and_set
  toggle-Safe a msk bit extra m lo hi h = set_reg-Safe a _ _ lo hi (get_reg-Safe a m h)

  pub set_ep_rx_stat-Safe :
      (ep : ℕ) (s : Stat) (m : Machine)
      → ep < 256
      → IsSafeSoFar cfg m
      → IsSafeSoFar cfg (usb_set_ep_rx_stat ep s m)
  unfolding usb_set_ep_rx_stat
  set_ep_rx_stat-Safe ep s m lt h =
      toggle-Safe (usb_ep_reg ep) _ _ _ m (omega arith) (omega arith) h

  pub set_ep_tx_stat-Safe :
      (ep : ℕ) (s : Stat) (m : Machine)
      → ep < 256
      → IsSafeSoFar cfg m
      → IsSafeSoFar cfg (usb_set_ep_tx_stat ep s m)
  unfolding usb_set_ep_tx_stat
  set_ep_tx_stat-Safe ep s m lt h =
      toggle-Safe (usb_ep_reg ep) _ _ _ m (omega arith) (omega arith) h

  -- The changes of an endpoint's register that are a load and a store of it.
  pub change-Safe :
      (ep v : ℕ) (m : Machine)
      → ep < 256
      → IsSafeSoFar cfg m
      → IsSafeSoFar cfg (set_reg (usb_ep_reg ep) v (get_reg (usb_ep_reg ep) m).1)
  change-Safe ep v m lt h =
      set_reg-Safe (usb_ep_reg ep) v _ (omega arith) (omega arith)
        (get_reg-Safe (usb_ep_reg ep) m h)

  pub entry_reg-Safe :
      (e : Entry) (ep : ℕ) (m : Machine) → IsSafeSoFar cfg m → IsSafeSoFar cfg (entry_reg e ep m).1
  unfolding entry_reg
  entry_reg-Safe e ep m h = get_reg-Safe usb_btable_reg m h

  pub entry_reg_address :
      (e : Entry) (ep : ℕ) (m : Machine)
      → IsSafeSoFar cfg m
      → (entry_reg e ep m).0 ≡ usb_pma_base + (ep * 8 + entry_offset e) * 2
  unfolding entry_reg get_reg load
  entry_reg_address e ep m h = omega (arith, h.layout.btable m.log)

  entry_offset_le : (e : Entry) → entry_offset e ≤ 6
  entry_offset_le tx_addr = omega arith
  entry_offset_le tx_count = omega arith
  entry_offset_le rx_addr = omega arith
  entry_offset_le rx_count = omega arith

  pub set_entry-Safe :
      (e : Entry) (ep v : ℕ) (m : Machine)
      → ep < 256
      → IsSafeSoFar cfg m
      → IsSafeSoFar cfg (set_entry e ep v m)
  unfolding set_entry
  set_entry-Safe e ep v m lt h =
      set_reg-Safe _ v _ (omega (arith, entry_reg_address e ep m h, entry_offset_le e))
        (omega (arith, entry_reg_address e ep m h, entry_offset_le e)) (entry_reg-Safe e ep m h)

  pub get_entry-Safe :
      (e : Entry) (ep : ℕ) (m : Machine) → IsSafeSoFar cfg m → IsSafeSoFar cfg (get_entry e ep m).1
  unfolding get_entry
  get_entry-Safe e ep m h = get_reg-Safe _ _ (entry_reg-Safe e ep m h)

  pub get_ep_buff-Safe :
      (e : Entry) (ep : ℕ) (m : Machine)
      → IsSafeSoFar cfg m
      → IsSafeSoFar cfg (get_ep_buff e ep m).1
  unfolding get_ep_buff
  get_ep_buff-Safe e ep m h = get_entry-Safe e ep m h
