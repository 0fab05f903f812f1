-- ===== src/Tests/Boundary.antt =====
-- A poll in which the boot loader writes a block that the host has sent.
use ln_dso_stm32_dfu_bootloa.Common.{
  ℕ, suc, zero, ◌<◌, ◌==◌, if◌then◌else◌, true, length-replicate, arith, refl, [],
}
use ln_dso_stm32_dfu_bootloa.Machine.{Machine, Settles}
use ln_dso_stm32_dfu_bootloa.Config.{stm32f103}
use ln_dso_stm32_dfu_bootloa.Flash.Safe.{AllSafe}
use ln_dso_stm32_dfu_bootloa.Usb.Regs.{usb_istr_reg}
use ln_dso_stm32_dfu_bootloa.Usb.State.{Usb, status_out}
use ln_dso_stm32_dfu_bootloa.Usb.Receive.{UsbValid}
use ln_dso_stm32_dfu_bootloa.Usb.Safe.{Layout}
use ln_dso_stm32_dfu_bootloa.Usb.Stages.{TargetFits}
use ln_dso_stm32_dfu_bootloa.Usb.Invariant.{polls}
use ln_dso_stm32_dfu_bootloa.Usb.Boundary.{polls-AllSafe}
use ln_dso_stm32_dfu_bootloa.Tests.{busy_download, sound}
use ln_dso_stm32_dfu_bootloa.Tests.Usb.{asked}

-- The peripheral reports that a packet of endpoint 0 has come.
abbrev packet_came : Machine
packet_came = record {
  answer = λ log w a. if a == usb_istr_reg then 0x8010 else 0;
  flash_ends = λ log. Settles.ready refl;
  log = [];
}

-- The host has read the status of a pending block and acknowledges it.
abbrev pub acknowledged : Usb
acknowledged = record asked {
  fsm = status_out;
  complete_cb = true;
  dfu = busy_download;
  machine = packet_came;
}

acknowledged-UsbValid : UsbValid acknowledged
acknowledged-UsbValid = record {
  dfu = record {
    buffer_size = length-replicate {A = ℕ} 1024 0;
    prog_size = length-replicate {A = ℕ} 1024 0;
    len_fits = omega arith;
    pending = λ h. omega arith;
  };
  stage = tt;
}

packet_came-Layout : Layout packet_came.answer
packet_came-Layout = record { btable = λ log. refl; tx = λ log. omega arith }

acknowledged-TargetFits : (k : ℕ) → k < 1 → TargetFits (polls k stm32f103 acknowledged)
unfolding polls
acknowledged-TargetFits zero lt = omega arith
acknowledged-TargetFits (suc k) lt = absurd (omega arith)

polls-AllSafe_example : AllSafe stm32f103 (polls 1 stm32f103 acknowledged).machine
polls-AllSafe_example =
    polls-AllSafe stm32f103 sound 1 acknowledged acknowledged-UsbValid packet_came-Layout
      acknowledged-TargetFits tt
