-- ===== src/Tests/Usb.antt =====
-- The control endpoint of src/usb.cpp in concrete transfers.
use ln_dso_stm32_dfu_bootloa.Common.{
  ℕ, ◌+◌, ◌-◌, ◌*◌, ◌≤◌, ◌<◌, ◌≡◌, refl, inr, true, false, [], ◌∷◌, some, length, get_or, half_at,
  length-replicate, ltb, ◌==◌, if◌then◌else◌, arith,
}
use ln_dso_stm32_dfu_bootloa.Machine.{Machine, Settles, load}
use ln_dso_stm32_dfu_bootloa.Machine.Trace.{stored_word}
use ln_dso_stm32_dfu_bootloa.Config.{stm32f103}
use ln_dso_stm32_dfu_bootloa.Stubs.{strlen}
use ln_dso_stm32_dfu_bootloa.Dfu.Types.{SetupData, handled}
use ln_dso_stm32_dfu_bootloa.Usb.Regs.{
  usb_daddr_reg, usb_pma_base, get_entry, entry_reg, get_reg, get_ep_buff,
}
use ln_dso_stm32_dfu_bootloa.Usb.State.{
  Usb, data_in, last_data_in, last_data_out, status_in, idle, max_packet_size,
}
use ln_dso_stm32_dfu_bootloa.Usb.Packet.{
  usbd_ep_read_packet, read_packet, rx_length, has_stat, st_usbfs_copy_from_pm, copy_from_pm,
}
use ln_dso_stm32_dfu_bootloa.Usb.Descriptors.{usb_strings, string_descriptor, usb_dt_string}
use ln_dso_stm32_dfu_bootloa.Usb.Control.{
  usb_control_recv_chunk, usb_control_setup_read, usbd_control_in,
}
use ln_dso_stm32_dfu_bootloa.Usb.Poll.{rx_bufsize, on_reset}
use ln_dso_stm32_dfu_bootloa.Usb.Send.{
  in_rounds, full_packets, read_stage_ends, abort_reads_past_buffer,
}
use ln_dso_stm32_dfu_bootloa.Usb.Receive.{
  UsbValid, next_size, next_bytes, recv_chunk_stores, recv_chunk_last,
}
use ln_dso_stm32_dfu_bootloa.Usb.Invariant.{polls, polls-UsbValid}
use ln_dso_stm32_dfu_bootloa.Usb.Address.{set_address_is_latched}
use ln_dso_stm32_dfu_bootloa.Usb.Alloc.{capacity, capacity_of, capacity-rx_bufsize, on_reset_layout}
use ln_dso_stm32_dfu_bootloa.Usb.Text.{string_descriptor_reads}
use ln_dso_stm32_dfu_bootloa.Tests.{zeros, at_start, at_start-IsValid}

abbrev abort_packet : SetupData
abort_packet = record {
  bm_request_type = 0xa1;
  b_request = 6;
  w_value = 0;
  w_index = 0;
  w_length = 2000;
}

-- The host has asked for an abort, and wants to read 2000 bytes.
abbrev pub asked : Usb
asked = record {
  fsm = idle;
  datasize = 0;
  dataoff = 0;
  pm_top = 0x40;
  needs_zlp = false;
  req = abort_packet;
  force_nak = 0 ∷ 0 ∷ 0 ∷ 0 ∷ 0 ∷ 0 ∷ 0 ∷ 0 ∷ [];
  complete_cb = false;
  strings = [];
  dfu = at_start;
  machine = zeros;
}

abort_reads_past_buffer_example :
    let v = in_rounds 15 stm32f103 (usb_control_setup_read stm32f103 asked) in
    (v.fsm ≡ data_in) × (v.dataoff ≡ length v.dfu.buffer) × (64 < v.datasize)
abort_reads_past_buffer_example =
    abort_reads_past_buffer stm32f103 asked refl refl (omega arith) (omega arith)
      (length-replicate {A = ℕ} 1024 0)

-- A thousand bytes are to be sent.
abbrev sending : Usb
sending = record asked { fsm = data_in; datasize = 1000 }

read_stage_ends_example :
    let v = in_rounds (full_packets 1000) stm32f103 sending in
    ((in_rounds 7 stm32f103 sending).fsm ≡ data_in)
    × (v.dataoff + v.datasize ≡ 0 + 1000)
    × (0 < v.datasize)
    × (v.datasize ≤ max_packet_size)
    × (v.dfu ≡ sending.dfu)
    × ((in_rounds (full_packets 1000 + 1) stm32f103 sending).fsm ≡ last_data_in)
read_stage_ends_example =
    read_stage_ends stm32f103 sending 7 refl refl (omega arith) (omega arith) (omega arith)

-- Four bytes lie in the packet memory.
abbrev with_packet : Machine
with_packet = record {
  answer = λ log w a.
      if a == 0x4000600c
      then 4
      else if a == 0x40006008
      then 0x80
      else if a == 0x40006100
      then 0x0201
      else if a == 0x40006104
      then 0x0403
      else 0;
  flash_ends = λ log. Settles.ready refl;
  log = [];
}

-- The last four bytes of a write of 68 are to come.
abbrev pub receiving : Usb
receiving = record asked {
  fsm = last_data_out;
  datasize = 64;
  req = record { bm_request_type = 0x21; b_request = 1; w_value = 2; w_index = 0; w_length = 68 };
  machine = with_packet;
}

pub receiving-UsbValid : UsbValid receiving
receiving-UsbValid = record {
  dfu = at_start-IsValid;
  stage = (omega arith, omega arith, omega arith);
}

receiving_accepts : (usb_control_recv_chunk receiving).0 ≡ true
unfolding usb_control_recv_chunk usbd_ep_read_packet read_packet rx_length has_stat get_entry
    entry_reg get_reg get_ep_buff st_usbfs_copy_from_pm copy_from_pm load
receiving_accepts = refl

recv_chunk_stores_example :
    let u' = (usb_control_recv_chunk receiving).1 in
    (u'.datasize ≡ 64 + next_size receiving)
    × (u'.datasize ≤ receiving.req.w_length)
    × (u'.datasize ≤ length u'.dfu.buffer)
    × (get_or u'.dfu.buffer 66 0 ≡ (
        if ltb 66 64
        then get_or receiving.dfu.buffer 66 0
        else get_or (next_bytes receiving) (66 - 64) 0))
recv_chunk_stores_example =
    recv_chunk_stores receiving 66 receiving-UsbValid (inr refl) receiving_accepts (omega arith)

recv_chunk_last_example : (usb_control_recv_chunk receiving).1.datasize ≡ 68
recv_chunk_last_example = recv_chunk_last receiving receiving-UsbValid refl receiving_accepts

polls-UsbValid_example : UsbValid (polls 5 stm32f103 receiving)
polls-UsbValid_example = polls-UsbValid stm32f103 5 receiving receiving-UsbValid

-- The host gives the device the address 5.
abbrev addressed : Usb
addressed = record asked {
  req = record { bm_request_type = 0; b_request = 5; w_value = 5; w_index = 0; w_length = 0 };
}

set_address_is_latched_example :
    let v = usb_control_setup_read stm32f103 addressed in
    let w = usbd_control_in stm32f103 v in
    (v.fsm ≡ status_in)
    × (stored_word v.machine.log usb_daddr_reg ≡ stored_word addressed.machine.log usb_daddr_reg)
    × (w.fsm ≡ idle)
    × (stored_word w.machine.log usb_daddr_reg ≡ some (128 + 5))
set_address_is_latched_example =
    set_address_is_latched stm32f103 addressed refl refl (omega arith) refl refl

capacity-rx_bufsize_example : capacity (rx_bufsize 63) ≡ capacity_of 63
capacity-rx_bufsize_example = capacity-rx_bufsize 63 (omega arith)

on_reset_layout_example :
    let v = on_reset asked in
    (stored_word v.machine.log usb_pma_base ≡ some 0x40)
    × (stored_word v.machine.log (usb_pma_base + 8) ≡ some 0x80)
    × (stored_word v.machine.log (usb_pma_base + 12) ≡ some 0x8800)
    × (v.pm_top ≡ 0xc0)
    × (stored_word v.machine.log usb_daddr_reg ≡ some 0x80)
on_reset_layout_example = on_reset_layout asked (λ log. refl)

-- The device has the boot loader's strings.
abbrev with_strings : Usb
with_strings = record asked { strings = usb_strings stm32f103 [] }

string_descriptor_reads_example :
    let text = get_or with_strings.strings 1 [] in
    let r = string_descriptor (1 + 1) 0x409 with_strings in
    (r.0 ≡ handled)
    × (r.1.datasize ≡ strlen text * 2 + 2)
    × (get_or r.1.dfu.buffer 0 0 ≡ strlen text * 2 + 2)
    × (get_or r.1.dfu.buffer 1 0 ≡ usb_dt_string)
    × (half_at r.1.dfu.buffer (2 + 2 * 3) ≡ get_or text 3 0)
string_descriptor_reads_example =
    string_descriptor_reads 1 3 with_strings (omega arith) (unfold strlen in omega arith)
      (unfold strlen in omega arith) (omega (arith, length-replicate {A = ℕ} 1024 0))
