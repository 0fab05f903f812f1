-- ===== src/Machine.antt =====
-- What the code sees of the microcontroller: volatile loads and stores at 32-bit addresses
-- (`MMIO32` of src/usb.h and the register macros of src/flash.h). The hardware is no code of the
-- repository, so it is a parameter: a function from the accesses made so far to the value that the
-- next load returns, with the promise that the flash controller ends its operations.

pub mod Trace
use ln_dso_stm32_dfu_bootloa.Common.{
  ℕ, ◌%◌, ◌≡◌, Bool, true, false, List, ◌∷◌, bit_and, bit_or, ◌==◌,
}

pub data Width : Type 0 where
  byte half word : Width

abbrev pub span : Width → ℕ
span byte = 256
span half = 65536
span word = 4294967296

pub data Access : Type 0 where
  read : Width → ℕ → Access
  write : Width → ℕ → ℕ → Access

-- The newest access stands first.
abbrev pub Log : Type 0
Log = List Access

abbrev pub Answer : Type 0
Answer = Log → Width → ℕ → ℕ

-- What a load returns has the width of the load.
abbrev pub value : Answer → Log → Width → ℕ → ℕ
value answer log w a = answer log w a % span w

-- A register that is polled reads as wanted at once, or after a poll that is followed by others.
pub data Settles (answer : Answer) (a : ℕ) (done : ℕ → Bool) : Log → Type 0 where
  ready : {log : Log} → done (value answer log word a) ≡ true → Settles answer a done log
  again :
      {log : Log}
      → done (value answer log word a) ≡ false
      → Settles answer a done (read word a ∷ log)
      → Settles answer a done log

abbrev pub flash_sr : ℕ
flash_sr = 0x4002200c

abbrev pub flash_sr_bsy : ℕ
flash_sr_bsy = 1

abbrev pub is_idle : ℕ → Bool
is_idle sr = bit_and sr flash_sr_bsy == 0

-- `flash_ends` is the documented behaviour of the flash controller: BSY is cleared in the end.
pub record Machine : Type 0 where
  pub answer : Answer
  pub flash_ends : (log : Log) → Settles answer flash_sr is_idle log
  pub log : Log

unfoldable pub load : Width → ℕ → Machine → ℕ × Machine
load w a m = (value m.answer m.log w a, record m { log = read w a ∷ m.log })

unfoldable pub store : Width → ℕ → ℕ → Machine → Machine
store w a v m = record m { log = write w a v ∷ m.log }

-- `REG |= mask` and `REG &= ~mask`: the value is read, then the changed value is written.
unfoldable pub set_bits : ℕ → ℕ → Machine → Machine
unfolding load store
set_bits a mask m = let (v, m') = load word a m in store word a (bit_or v mask) m'

unfoldable pub keep_bits : ℕ → ℕ → Machine → Machine
unfolding load store
keep_bits a mask m = let (v, m') = load word a m in store word a (bit_and v mask) m'

-- `while (!done(REG));` as recursion on the promise that the register settles.
unfoldable pub poll :
    {answer : Answer} {a : ℕ} {done : ℕ → Bool} {log : Log} → Settles answer a done log → Log
poll {a = a} (ready {log = log} e) = read word a ∷ log
poll (again e s) = poll s
