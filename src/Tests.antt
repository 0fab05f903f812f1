-- ===== src/Tests.antt =====
-- Concrete machines, sessions and images for src/dfu.cpp; the children have those for the other
-- files.
mod Flash
mod Boot
mod Usb
mod Boundary
mod Registers
mod Screen
mod Startup
mod Mode
use ln_dso_stm32_dfu_bootloa.Common.{
  ℕ, ◌+◌, ◌*◌, ◌%◌, ◌≤◌, ◌<◌, ◌≡◌, refl, inr, Bool, true, false, List, [], ◌∷◌, Option, none, some,
  length, get_or, replicate, length-replicate, half_at, word_at, ltb, if◌then◌else◌, arith,
}
use ln_dso_stm32_dfu_bootloa.Machine.{Machine, load, Settles}
use ln_dso_stm32_dfu_bootloa.Machine.Trace.{All}
use ln_dso_stm32_dfu_bootloa.Flash.Stored.{stored}
use ln_dso_stm32_dfu_bootloa.Config.{Config, IsSound, stm32f103, stm32f103_full, start_addr}
use ln_dso_stm32_dfu_bootloa.Stubs.{memcpy, memcpy_from, get_or-memcpy}
use ln_dso_stm32_dfu_bootloa.Flash.{
  words_erased, words_per_page, flash_page_is_erased, flash_program_buffer, flash_erase_page,
  check_do_erase,
}
use ln_dso_stm32_dfu_bootloa.Flash.Safe.{InApp, AllSafe}
use ln_dso_stm32_dfu_bootloa.Flash.Sweep.{sweep, check_do_erase-eq-sweep}
use ln_dso_stm32_dfu_bootloa.Flash.Erased.{
  word_loaded, flash_page_is_erased_sound, flash_page_is_erased_complete,
}
use ln_dso_stm32_dfu_bootloa.Flash.Programmed.{
  flash_program_buffer_stores, flash_program_buffer_outside,
}
use ln_dso_stm32_dfu_bootloa.Dfu.Types.{DfuState, SetupData, dfu_req, idle, dnbusy}
use ln_dso_stm32_dfu_bootloa.Dfu.{
  Prog, Dfu, dfu_transfer_size, erase_command, safewrite, usbdfu_getstatus_complete,
  usbdfu_getstatus, complete_in, run_download,
}
use ln_dso_stm32_dfu_bootloa.Dfu.Requests.{
  usbdfu_control_request, handle_request, dnload_request, getstatus_request,
}
use ln_dso_stm32_dfu_bootloa.Dfu.Graph.{
  Origin, usbdfu_control_request-Origin, after_complete, usbdfu_getstatus_complete_state,
}
use ln_dso_stm32_dfu_bootloa.Dfu.Guard.{target, usbdfu_getstatus_complete-AllSafe}
use ln_dso_stm32_dfu_bootloa.Dfu.Invariant.{IsValid}
use ln_dso_stm32_dfu_bootloa.Dfu.Status.{
  after_getstatus, answer_status, answer_timeout, b_status, bw_poll_timeout, b_state, decode_state,
  getstatus_request_answers,
}
use ln_dso_stm32_dfu_bootloa.Dfu.Session.{
  Event, receive, request, complete, step, run, dnload_packet, getstatus_packet, image_events,
}
use ln_dso_stm32_dfu_bootloa.Dfu.Safety.{StaysBelow, run-IsValid, run-AllSafe, erase_command_wraps}
use ln_dso_stm32_dfu_bootloa.Dfu.Image.{AreFull, image_is_stored}
use ln_dso_stm32_dfu_bootloa.Reboot.{
  marker, reboot_into_bootloader, clear_reboot_flags, rebooted_into_dfu,
}
use ln_dso_stm32_dfu_bootloa.Boot.{Hash, main}
use ln_dso_stm32_dfu_bootloa.Boot.Decision.{Inputs, Reads, EndsWell, main-EndsWell}

-- Every register reads as zero and every word of the memory too.
abbrev pub zeros : Machine
zeros = record { answer = λ log w a. 0; flash_ends = λ log. Settles.ready refl; log = [] }

pub sound : IsSound stm32f103
sound = record { room = omega arith; small = omega arith }

abbrev pub blank : List ℕ
blank = replicate 1024 0

-- The globals after power-on, with the address pointer at the start of the application.
abbrev pub at_start : Dfu
at_start = record {
  state = idle;
  prog = record { buf = blank; len = 0; addr = 0x08002000; blocknum = 0 };
  erased = false;
  buffer = blank;
}

pub at_start-IsValid : IsValid at_start
at_start-IsValid = record {
  buffer_size = length-replicate {A = ℕ} 1024 0;
  prog_size = length-replicate {A = ℕ} 1024 0;
  len_fits = omega arith;
  pending = λ h. absurd (ground arith);
}

-- The host erases the page at 0x08002400, then writes four bytes to the first block.
abbrev erase_and_write : List Event
erase_and_write =
    receive (0x41 ∷ 0x00 ∷ 0x24 ∷ 0x00 ∷ 0x08 ∷ [])
    ∷ request (dnload_packet 0 5) 5
    ∷ request getstatus_packet 6
    ∷ complete
    ∷ receive (1 ∷ 2 ∷ 3 ∷ 4 ∷ [])
    ∷ request (dnload_packet 2 4) 4
    ∷ request getstatus_packet 6
    ∷ complete
    ∷ []

erase_and_write-StaysBelow : StaysBelow stm32f103 erase_and_write at_start zeros
unfolding step usbdfu_control_request handle_request dnload_request memcpy memcpy_from
    getstatus_request usbdfu_getstatus usbdfu_getstatus_complete complete_in run_download
    erase_command safewrite
erase_and_write-StaysBelow = (omega arith, (omega arith, tt))

run-AllSafe_example : AllSafe stm32f103 (run stm32f103 erase_and_write at_start zeros).1
run-AllSafe_example =
    run-AllSafe stm32f103 sound erase_and_write at_start zeros at_start-IsValid
      erase_and_write-StaysBelow tt

run-IsValid_example : IsValid (run stm32f103 erase_and_write at_start zeros).0
run-IsValid_example = run-IsValid stm32f103 erase_and_write at_start zeros at_start-IsValid

-- An image of two blocks.
abbrev two_blocks : List (List ℕ)
two_blocks = replicate 1024 7 ∷ replicate 1024 9 ∷ []

image_is_stored_example :
    stored
      (run stm32f103 (image_events 0 two_blocks) at_start zeros).1.log
      (0x08002000 + 1 * 1024 + 2 * 3)
    ≡ some (half_at (get_or two_blocks 1 []) (2 * 3))
image_is_stored_example =
    image_is_stored stm32f103 two_blocks 0 at_start zeros at_start-IsValid
      (length-replicate {A = ℕ} 1024 7, (length-replicate {A = ℕ} 1024 9, tt)) refl (omega arith)
      (omega arith) 1 3 (omega arith) (omega arith)

abbrev get_status : SetupData
get_status = getstatus_packet

-- A download is pending and the host asks for the status.
abbrev pending_download : Dfu
pending_download = record at_start {
  state = DfuState.dnload_sync;
  prog = record { buf = blank; len = 4; addr = 0x08002000; blocknum = 2 };
}

usbdfu_control_request-Origin_example :
    Origin
      (dfu_req get_status.b_request)
      pending_download.state
      (usbdfu_control_request stm32f103 get_status 6 false pending_download zeros).dfu.state
usbdfu_control_request-Origin_example =
    usbdfu_control_request-Origin stm32f103 get_status 6 false pending_download zeros

getstatus_request_answers_example :
    let r = usbdfu_control_request stm32f103 get_status 6 false pending_download zeros in
    (r.len ≡ 6)
    × (r.complete ≡ true)
    × (r.dfu.state ≡ after_getstatus pending_download.state)
    × (b_status r.dfu ≡ answer_status pending_download.state)
    × (bw_poll_timeout r.dfu ≡ answer_timeout pending_download.state)
    × (decode_state (b_state r.dfu) ≡ some (after_getstatus pending_download.state))
    × (get_or r.dfu.buffer 5 0 ≡ 0)
getstatus_request_answers_example =
    getstatus_request_answers stm32f103 get_status 6 false pending_download zeros refl
      (omega (arith, length-replicate {A = ℕ} 1024 0))

-- The pending block is written when the answer has been sent.
abbrev pub busy_download : Dfu
busy_download = record pending_download { state = dnbusy }

-- An ERASE command for the last kilobyte of the address space.
abbrev erase_at_top : Dfu
erase_at_top = record at_start {
  state = dnbusy;
  prog = record {
    buf = 0x41 ∷ 0x00 ∷ 0xfc ∷ 0xff ∷ 0xff ∷ replicate 1019 0;
    len = 5;
    addr = 0x08002000;
    blocknum = 0;
  };
}

erase_command_wraps_example :
    ((erase_command stm32f103 erase_at_top zeros).1
      ≡ flash_erase_page
          (word_at erase_at_top.prog.buf 1)
          (flash_page_is_erased
            (word_at erase_at_top.prog.buf 1)
            (safewrite stm32f103 erase_at_top zeros).1).1)
    × ¬ InApp stm32f103 (word_at erase_at_top.prog.buf 1) 1
erase_command_wraps_example =
    erase_command_wraps stm32f103 sound erase_at_top zeros (omega arith) (omega arith)
      (unfold safewrite flash_page_is_erased words_erased load in refl)
