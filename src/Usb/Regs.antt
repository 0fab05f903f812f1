-- ===== src/Usb/Regs.antt =====
-- The USB peripheral's registers and the macros of src/usb.h that change them.
use ln_dso_stm32_dfu_bootloa.Common.{ℕ, ◌+◌, ◌*◌, u16, not16, bit_and, bit_or, bit_xor}
use ln_dso_stm32_dfu_bootloa.Machine.{Machine, word, load, store}

abbrev pub usb_dev_fs_base : ℕ
usb_dev_fs_base = 0x40005c00

abbrev pub usb_pma_base : ℕ
usb_pma_base = 0x40006000

abbrev pub usb_cntr_reg : ℕ
usb_cntr_reg = usb_dev_fs_base + 0x40

abbrev pub usb_istr_reg : ℕ
usb_istr_reg = usb_dev_fs_base + 0x44

abbrev pub usb_daddr_reg : ℕ
usb_daddr_reg = usb_dev_fs_base + 0x4c

abbrev pub usb_btable_reg : ℕ
usb_btable_reg = usb_dev_fs_base + 0x50

abbrev pub usb_ep_reg : ℕ → ℕ
usb_ep_reg ep = usb_dev_fs_base + 4 * ep

-- bits of the endpoint registers
abbrev pub usb_ep_rx_ctr : ℕ
usb_ep_rx_ctr = 0x8000

abbrev pub usb_ep_rx_dtog : ℕ
usb_ep_rx_dtog = 0x4000

abbrev pub usb_ep_rx_stat : ℕ
usb_ep_rx_stat = 0x3000

abbrev pub usb_ep_setup : ℕ
usb_ep_setup = 0x0800

abbrev pub usb_ep_type : ℕ
usb_ep_type = 0x0600

abbrev pub usb_ep_kind : ℕ
usb_ep_kind = 0x0100

abbrev pub usb_ep_tx_ctr : ℕ
usb_ep_tx_ctr = 0x0080

abbrev pub usb_ep_tx_dtog : ℕ
usb_ep_tx_dtog = 0x0040

abbrev pub usb_ep_tx_stat : ℕ
usb_ep_tx_stat = 0x0030

abbrev pub usb_ep_addr : ℕ
usb_ep_addr = 0x000f

-- USB_EP_RX_CTR | USB_EP_SETUP | USB_EP_TYPE | USB_EP_KIND | USB_EP_TX_CTR | USB_EP_ADDR
abbrev pub usb_ep_ntoggle_msk : ℕ
usb_ep_ntoggle_msk = 0x8f8f

abbrev pub usb_ep_rx_stat_tog_msk : ℕ
usb_ep_rx_stat_tog_msk = bit_or usb_ep_rx_stat usb_ep_ntoggle_msk

abbrev pub usb_ep_tx_stat_tog_msk : ℕ
usb_ep_tx_stat_tog_msk = bit_or usb_ep_tx_stat usb_ep_ntoggle_msk

-- `enum`-like values of the status fields
pub data Stat : Type 0 where
  disabled stall nak valid : Stat

abbrev pub rx_stat : Stat → ℕ
rx_stat disabled = 0x0000
rx_stat stall = 0x1000
rx_stat nak = 0x2000
rx_stat valid = 0x3000

abbrev pub tx_stat : Stat → ℕ
tx_stat disabled = 0x0000
tx_stat stall = 0x0010
tx_stat nak = 0x0020
tx_stat valid = 0x0030

unfoldable pub get_reg : ℕ → Machine → ℕ × Machine
get_reg reg m = let (v, m) = load word reg m in (u16 v, m)

unfoldable pub set_reg : ℕ → ℕ → Machine → Machine
set_reg reg v m = store word reg (u16 v) m

unfoldable pub clr_reg_bit : ℕ → ℕ → Machine → Machine
clr_reg_bit reg bit m = set_reg reg (not16 bit) m

unfoldable pub clr_reg_bit_msk_and_set : ℕ → ℕ → ℕ → ℕ → Machine → Machine
clr_reg_bit_msk_and_set reg msk bit extra_bits m =
    let (v, m) = get_reg reg m in
    set_reg reg (bit_or (bit_and (bit_and v msk) (not16 bit)) extra_bits) m

-- The value that the toggle mechanism writes: a bit of the window is 1 where it has to change.
abbrev pub toggle_value : ℕ → ℕ → ℕ → ℕ → ℕ
toggle_value v msk bit extra_bits = bit_or (bit_xor (bit_and v msk) bit) extra_bits

unfoldable pub tog_set_reg_bit_msk_and_set : ℕ → ℕ → ℕ → ℕ → Machine → Machine
tog_set_reg_bit_msk_and_set reg msk bit extra_bits m =
    let (v, m) = get_reg reg m in set_reg reg (toggle_value v msk bit extra_bits) m

unfoldable pub usb_set_ep_rx_stat : ℕ → Stat → Machine → Machine
usb_set_ep_rx_stat ep s m =
    tog_set_reg_bit_msk_and_set (usb_ep_reg ep) usb_ep_rx_stat_tog_msk (rx_stat s)
      (bit_or usb_ep_rx_ctr usb_ep_tx_ctr) m

unfoldable pub usb_set_ep_tx_stat : ℕ → Stat → Machine → Machine
usb_set_ep_tx_stat ep s m =
    tog_set_reg_bit_msk_and_set (usb_ep_reg ep) usb_ep_tx_stat_tog_msk (tx_stat s)
      (bit_or usb_ep_rx_ctr usb_ep_tx_ctr) m

unfoldable pub usb_set_ep_type : ℕ → ℕ → Machine → Machine
usb_set_ep_type ep type m =
    let (v, m) = get_reg (usb_ep_reg ep) m in
    set_reg (usb_ep_reg ep)
      (bit_or (bit_and v (bit_and usb_ep_ntoggle_msk (not16 usb_ep_type))) type) m

unfoldable pub usb_set_ep_addr : ℕ → ℕ → Machine → Machine
usb_set_ep_addr ep addr m =
    let (v, m) = get_reg (usb_ep_reg ep) m in
    set_reg (usb_ep_reg ep)
      (bit_or (bit_and v (bit_and usb_ep_ntoggle_msk (not16 usb_ep_addr))) addr) m

unfoldable pub usb_clr_ep_tx_dtog : ℕ → Machine → Machine
usb_clr_ep_tx_dtog ep m =
    let (v, m) = get_reg (usb_ep_reg ep) m in
    set_reg (usb_ep_reg ep) (bit_and v (bit_or usb_ep_ntoggle_msk usb_ep_tx_dtog)) m

unfoldable pub usb_clr_ep_rx_dtog : ℕ → Machine → Machine
usb_clr_ep_rx_dtog ep m =
    let (v, m) = get_reg (usb_ep_reg ep) m in
    set_reg (usb_ep_reg ep) (bit_and v (bit_or usb_ep_ntoggle_msk usb_ep_rx_dtog)) m

unfoldable pub usb_clr_ep_rx_ctr : ℕ → Machine → Machine
usb_clr_ep_rx_ctr ep m =
    clr_reg_bit_msk_and_set (usb_ep_reg ep) usb_ep_ntoggle_msk usb_ep_rx_ctr usb_ep_tx_ctr m

unfoldable pub usb_clr_ep_tx_ctr : ℕ → Machine → Machine
usb_clr_ep_tx_ctr ep m =
    clr_reg_bit_msk_and_set (usb_ep_reg ep) usb_ep_ntoggle_msk usb_ep_tx_ctr usb_ep_rx_ctr m

-- The entries of an endpoint in the buffer table, which BTABLE locates in the packet memory.
pub data Entry : Type 0 where
  tx_addr tx_count rx_addr rx_count : Entry

abbrev pub entry_offset : Entry → ℕ
entry_offset tx_addr = 0
entry_offset tx_count = 2
entry_offset rx_addr = 4
entry_offset rx_count = 6

unfoldable pub entry_reg : Entry → ℕ → Machine → ℕ × Machine
entry_reg e ep m =
    let (btable, m) = get_reg usb_btable_reg m in
    (usb_pma_base + (btable + ep * 8 + entry_offset e) * 2, m)

unfoldable pub get_entry : Entry → ℕ → Machine → ℕ × Machine
get_entry e ep m = let (reg, m) = entry_reg e ep m in get_reg reg m

unfoldable pub set_entry : Entry → ℕ → ℕ → Machine → Machine
set_entry e ep v m = let (reg, m) = entry_reg e ep m in set_reg reg v m

-- `USB_GET_EP_TX_BUFF` and `USB_GET_EP_RX_BUFF`
unfoldable pub get_ep_buff : Entry → ℕ → Machine → ℕ × Machine
get_ep_buff e ep m = let (a, m) = get_entry e ep m in (usb_pma_base + a * 2, m)
