-- ===== src/Board/Irq.antt =====
-- Interrupts and resets of the core: lnArduino_mini/lnIRQ_arm_gd32fx.cpp. `none` is a call of
-- `deadEnd`.
use ln_dso_stm32_dfu_bootloa.Common.{
  ℕ, ◌+◌, ◌*◌, ◌/◌, ◌%◌, ◌^◌, Bool, Option, none, some, ltb, u32, if◌then◌else◌,
}
use ln_dso_stm32_dfu_bootloa.Machine.{Machine, word, load, store}

abbrev pub scb : ℕ
scb = 0xe000ed00

-- offsets in `struct LN_SCB_Registersx`
abbrev pub scb_vtor : ℕ
scb_vtor = 8

abbrev pub scb_aircr : ℕ
scb_aircr = 12

abbrev pub aircr_key : ℕ
aircr_key = 0x5fa * 2 ^ 16

-- up to the endless loop
unfoldable pub sys_reset : ℕ → Machine → Machine
sys_reset x m =
    let (aircr, m) = load word (scb + scb_aircr) m in
    store word (scb + scb_aircr) (aircr_key + 2 ^ x) (store word (scb + scb_vtor) 0 m)

unfoldable pub ln_soft_system_reset : Machine → Machine
ln_soft_system_reset m = sys_reset 0 m

unfoldable pub ln_hard_system_reset : Machine → Machine
ln_hard_system_reset m = sys_reset 2 m

abbrev pub nvic : ℕ
nvic = 0xe000e100

-- offsets in `struct LN_NVICx`
abbrev pub nvic_iser : ℕ
nvic_iser = 0

abbrev pub nvic_icer : ℕ
nvic_icer = 128

-- `irq` is the number of the interrupt; the code stands still for 0.
unfoldable pub enable_disable : Bool → ℕ → Machine → Option Machine
enable_disable on irq m =
    if ltb 0 irq
    then some (
        store word (nvic + (if on then nvic_iser else nvic_icer) + 4 * (irq / 32))
          (u32 (2 ^ (irq % 32))) m)
    else none
