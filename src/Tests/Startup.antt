-- ===== src/Tests/Startup.antt =====
-- The start-up code, the clocks, the serial number and the loop of the DFU mode on concrete machines.
use ln_dso_stm32_dfu_bootloa.Common.{
  ℕ, ◌+◌, ◌*◌, ◌≡◌, refl, [], ◌∷◌, some, codes, get_or, replicate, length-replicate, ◌==◌,
  if◌then◌else◌, arith,
}
use ln_dso_stm32_dfu_bootloa.Machine.{Machine, Settles}
use ln_dso_stm32_dfu_bootloa.Machine.Trace.{stored_word}
use ln_dso_stm32_dfu_bootloa.Config.{stm32f103}
use ln_dso_stm32_dfu_bootloa.Clock.{Starts, clock_setup_in_hse_8mhz_out_72mhz}
use ln_dso_stm32_dfu_bootloa.Clock.Order.{IsLocked, clock_setup-IsLocked}
use ln_dso_stm32_dfu_bootloa.Dfu.Serial.{get_dev_unique_id, digit, get_dev_unique_id_reads}
use ln_dso_stm32_dfu_bootloa.Loop.{run_dfu}
use ln_dso_stm32_dfu_bootloa.Loop.Ends.{EndsWell, run_dfu-EndsWell}
use ln_dso_stm32_dfu_bootloa.Startup.{copy_words}
use ln_dso_stm32_dfu_bootloa.Startup.Memory.{
  copy_words_copies, blocks, AreStacked, blocks-AreStacked,
}
use ln_dso_stm32_dfu_bootloa.Tests.Screen.{plain, six_steps}
use ln_dso_stm32_dfu_bootloa.Tests.Usb.{receiving, receiving-UsbValid}

-- The oscillator is ready and the PLL locked whenever the code looks.
abbrev pub clocked : Machine
clocked = record {
  answer = λ log w a. if a == 0x40021000 then 0x2020000 else 0;
  flash_ends = λ log. Settles.ready refl;
  log = [];
}

pub clocked-Starts : Starts clocked.answer
clocked-Starts = record { hse = λ log v. Settles.ready refl; pll = λ log v. Settles.ready refl }

clock_setup-IsLocked_example :
    IsLocked clocked (clock_setup_in_hse_8mhz_out_72mhz clocked clocked-Starts)
clock_setup-IsLocked_example = clock_setup-IsLocked clocked clocked-Starts

-- Each byte of the identifier is 0xa5.
abbrev identified : Machine
identified = record {
  answer = λ log w a. if a == 0x4002200c then 0 else 0xa5;
  flash_ends = λ log. Settles.ready refl;
  log = [];
}

get_dev_unique_id_reads_example :
    let r = (get_dev_unique_id (replicate 25 0) identified).0 in
    (get_or r 2 0 ≡ get_or (codes "DSO150") 2 0)
    × (digit (get_or r (6 + 2 * 4) 0) * 16 + digit (get_or r (6 + (2 * 4 + 1)) 0) ≡ 0xa5)
get_dev_unique_id_reads_example =
    get_dev_unique_id_reads (replicate 25 0) identified (λ k. 0xa5) 2 4 (λ k lt log. ground arith)
      (length-replicate {A = ℕ} 25 0) (omega arith) (omega arith)

run_dfu-EndsWell_example :
    EndsWell (run_dfu plain six_steps stm32f103 7 (8 ∷ 120 ∷ 121 ∷ []) receiving)
run_dfu-EndsWell_example =
    run_dfu-EndsWell plain six_steps stm32f103 7 (8 ∷ 120 ∷ 121 ∷ []) receiving refl
      receiving-UsbValid

copy_words_copies_example :
    stored_word (copy_words 5 0x20000100 0x20000110 0x08001000 identified).log (0x20000100 + 4 * 2)
    ≡ some 0xa5
copy_words_copies_example =
    copy_words_copies 5 0x20000100 0x20000110 0x08001000 identified (λ k. 0xa5) 2
      (λ k lt log. ground arith) (omega arith) (omega arith) (omega arith) (omega arith)

blocks-AreStacked_example : AreStacked 0x20002800 (blocks (5 ∷ 8 ∷ []) 0x20002800 clocked)
blocks-AreStacked_example =
    blocks-AreStacked (5 ∷ 8 ∷ []) 0x20002800 clocked (omega arith) (omega arith)
