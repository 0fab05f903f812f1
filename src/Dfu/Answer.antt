-- ===== src/Dfu/Answer.antt =====
-- The hardware under the routines of src/flash.h and src/dfu.cpp.
use ln_dso_stm32_dfu_bootloa.Common.{
  ℕ, zero, suc, ◌+◌, ◌*◌, ◌/◌, ◌≡◌, refl, Bool, true, false, List, Option, some, u32, half_at,
  word_at, arith,
}
use ln_dso_stm32_dfu_bootloa.Machine.{Machine, byte, half, word, load, store, set_bits, keep_bits}
use ln_dso_stm32_dfu_bootloa.Config.{Config}
use ln_dso_stm32_dfu_bootloa.Flash.{
  flash_unlock, flash_lock, flash_wait, flash_erase_page, words_erased, words_per_page,
  flash_page_is_erased, program_halves, flash_program_buffer, ensure_erased, erase_pages,
  check_do_erase,
}
use ln_dso_stm32_dfu_bootloa.Dfu.Types.{DfuReq, upload, dfu_req, DfuState, dnbusy, SetupData}
use ln_dso_stm32_dfu_bootloa.Dfu.{
  Dfu, block_addr, dfu_transfer_size, safewrite, erase_command, write_block, run_download,
  complete_in, usbdfu_getstatus_complete,
}
use ln_dso_stm32_dfu_bootloa.Dfu.Requests.{
  load_bytes, upload_request, handle_request, usbdfu_control_request,
}

erase_page-answer : (a : ℕ) (m : Machine) → (flash_erase_page a m).answer ≡ m.answer
unfolding flash_erase_page flash_wait set_bits keep_bits store
erase_page-answer a m = refl

words_erased-answer : (n a : ℕ) (m : Machine) → (words_erased n a m).1.answer ≡ m.answer
unfolding words_erased load
words_erased-answer zero a m = refl
words_erased-answer (suc n) a m =
    ground (arith, words_erased-answer n (u32 (a + 4)) (load word a m).1)

ensure_erased-answer : (a : ℕ) (m : Machine) → (ensure_erased a m).answer ≡ m.answer
unfolding ensure_erased flash_page_is_erased
ensure_erased-answer a m = ground (
  arith,
  words_erased-answer words_per_page a m,
  erase_page-answer a (words_erased words_per_page a m).1,
)

program_halves-answer :
    (n i a : ℕ) (buf : List ℕ) (m : Machine) → (program_halves n i a buf m).answer ≡ m.answer
unfolding program_halves flash_wait store
program_halves-answer zero i a buf m = refl
program_halves-answer (suc n) i a buf m =
    program_halves-answer n (i + 1) a buf
      (flash_wait (store half (u32 (a + 2 * i)) (half_at buf (2 * i)) m))

program_buffer-answer :
    (a : ℕ) (buf : List ℕ) (len : ℕ) (m : Machine)
    → (flash_program_buffer a buf len m).answer ≡ m.answer
unfolding flash_program_buffer flash_wait set_bits keep_bits
program_buffer-answer a buf len m = program_halves-answer (len / 2) 0 a buf _

erase_pages-answer : (fuel a end : ℕ) (m : Machine) → (erase_pages fuel a end m).answer ≡ m.answer
unfolding erase_pages
erase_pages-answer zero a end m = refl
erase_pages-answer (suc fuel) a end m = ground (
  arith,
  erase_pages-answer fuel (u32 (a + 1024)) end (ensure_erased a m),
  ensure_erased-answer a m,
)

check_do_erase-answer :
    (cfg : Config) (erased : Bool) (m : Machine) → (check_do_erase cfg erased m).1.answer ≡ m.answer
unfolding check_do_erase
check_do_erase-answer cfg true m = refl
check_do_erase-answer cfg false m = erase_pages-answer _ _ _ m

safewrite-answer : (cfg : Config) (d : Dfu) (m : Machine) → (safewrite cfg d m).1.answer ≡ m.answer
unfolding safewrite
safewrite-answer cfg d m = ground (arith, check_do_erase-answer cfg d.erased m)

erase_command-answer :
    (cfg : Config) (d : Dfu) (m : Machine) → (erase_command cfg d m).1.answer ≡ m.answer
unfolding erase_command
erase_command-answer cfg d m =
    let r = safewrite cfg d m in
    ground (arith, safewrite-answer cfg d m, ensure_erased-answer (word_at r.0.prog.buf 1) r.1)

write_block-answer :
    (cfg : Config) (d : Dfu) (m : Machine) → (write_block cfg d m).1.answer ≡ m.answer
unfolding write_block
write_block-answer cfg d m =
    let r = safewrite cfg d m in
    let base = block_addr r.0.prog.addr r.0.prog.blocknum in
    ground (
      arith,
      safewrite-answer cfg d m,
      ensure_erased-answer base r.1,
      program_buffer-answer base r.0.prog.buf r.0.prog.len (ensure_erased base r.1),
    )

run_download-answer :
    (cfg : Config) (d : Dfu) (m : Machine) → (run_download cfg d m).1.answer ≡ m.answer
unfolding run_download
run_download-answer cfg d m =
    ground (arith, erase_command-answer cfg d m, write_block-answer cfg d m)

complete_in-answer :
    (cfg : Config) (s : DfuState) (d : Dfu) (m : Machine)
    → (complete_in cfg s d m).1.answer ≡ m.answer
unfolding complete_in flash_lock flash_unlock set_bits store
complete_in-answer cfg dnbusy d m = run_download-answer cfg d (flash_unlock false m)
complete_in-answer cfg _ d m = refl

pub getstatus_complete-answer :
    (cfg : Config) (d : Dfu) (m : Machine) → (usbdfu_getstatus_complete cfg d m).1.answer ≡ m.answer
unfolding usbdfu_getstatus_complete
getstatus_complete-answer cfg d m = complete_in-answer cfg d.state d m

load_bytes-answer : (n a : ℕ) (m : Machine) → (load_bytes n a m).1.answer ≡ m.answer
unfolding load_bytes load
load_bytes-answer zero a m = refl
load_bytes-answer (suc n) a m = load_bytes-answer n (u32 (a + 1)) (load byte a m).1

upload_request-answer :
    (cfg : Config) (req : SetupData) (c : Bool) (d : Dfu) (m : Machine)
    → (upload_request cfg req c d m).machine.answer ≡ m.answer
unfolding upload_request
upload_request-answer cfg req c d m =
    ground (arith, load_bytes-answer dfu_transfer_size (block_addr d.prog.addr req.w_value) m)

handle_request-answer :
    (cfg : Config) (r : Option DfuReq) (req : SetupData) (len : ℕ) (c : Bool) (d : Dfu)
    (m : Machine)
    → (handle_request cfg r req len c d m).machine.answer ≡ m.answer
unfolding handle_request
handle_request-answer cfg (some upload) req len c d m = upload_request-answer cfg req c d m
handle_request-answer cfg _ req len c d m = refl

pub control_request-answer :
    (cfg : Config) (req : SetupData) (len : ℕ) (c : Bool) (d : Dfu) (m : Machine)
    → (usbdfu_control_request cfg req len c d m).machine.answer ≡ m.answer
unfolding usbdfu_control_request
control_request-answer cfg req len c d m =
    handle_request-answer cfg (dfu_req req.b_request) req len c d m
