-- ===== src/Dfu/Block.antt =====
-- One block, sent by the host to src/dfu.cpp, and what it leaves in the flash.
use ln_dso_stm32_dfu_bootloa.Common.{
  ℕ, suc, ◌+◌, ◌*◌, ◌/◌, ◌≤◌, ◌<◌, ◌≡◌, ◌≢◌, ◌⊎◌, refl, false, List, [], ◌∷◌, some, length, get_or,
  overlay, half_at, ◌==◌, get_or-overlay, length-overlay, ◌∙◌, sym, ap, arith, ltb,
}
use mathlib.Core.Path.{ap₂}
use ln_dso_stm32_dfu_bootloa.Machine.{Machine}
use ln_dso_stm32_dfu_bootloa.Flash.Stored.{stored}
use ln_dso_stm32_dfu_bootloa.Config.{Config, start_addr, end_addr}
use ln_dso_stm32_dfu_bootloa.Stubs.{memcpy, get_or-memcpy}
use ln_dso_stm32_dfu_bootloa.Dfu.Types.{dnbusy}
use ln_dso_stm32_dfu_bootloa.Dfu.{
  Prog, Dfu, block_addr, dfu_transfer_size, usbdfu_getstatus, usbdfu_getstatus_complete,
}
use ln_dso_stm32_dfu_bootloa.Dfu.Requests.{
  dnload_request, getstatus_request, handle_request, usbdfu_control_request,
}
use ln_dso_stm32_dfu_bootloa.Dfu.Guard.{in_app_iff_InApp}
use ln_dso_stm32_dfu_bootloa.Dfu.Invariant.{
  IsValid, usbdfu_control_request-IsValid, usbdfu_getstatus_complete-IsValid,
}
use ln_dso_stm32_dfu_bootloa.Dfu.Download.{
  IsPending, IsSwept, complete-IsSwept, complete_prog, complete_stores, complete_outside,
}
use ln_dso_stm32_dfu_bootloa.Dfu.Session.{
  receive, request, step, run, dnload_packet, getstatus_packet, block_events,
}

module _ (cfg : Config) (n : ℕ) (bytes : List ℕ) (d : Dfu) (m : Machine) where
  -- The globals when the host has sent the data, the request and the GETSTATUS.
  pending : Dfu
  pending =
      (run cfg
        (receive bytes
          ∷ request (dnload_packet n (length bytes)) (length bytes)
          ∷ request getstatus_packet 6
          ∷ [])
        d m).0

  module _ (v : IsValid d) (some_bytes : 0 < length bytes)
      (fits : length bytes ≤ dfu_transfer_size) where
    pending_fields :
        (pending.state ≡ dnbusy)
        × (pending.prog.blocknum ≡ n)
        × (pending.prog.len ≡ length bytes)
        × (pending.prog.addr ≡ d.prog.addr)
        × (pending.erased ≡ d.erased)
        × (pending.prog.buf ≡ memcpy d.prog.buf (overlay d.buffer 0 bytes) (length bytes))
    unfolding pending run step usbdfu_control_request handle_request dnload_request
        getstatus_request usbdfu_getstatus
    pending_fields = rw (not_empty, not_large) (refl, refl, refl, refl, refl, refl)
      where
        not_empty : (length bytes == 0) ≡ false
        not_empty = ground arith

        not_large : ltb dfu_transfer_size (length bytes) ≡ false
        not_large = ground arith

    -- The pending buffer starts with the bytes that the host sent.
    pending_byte : (j : ℕ) → j < length bytes → get_or pending.prog.buf j 0 ≡ get_or bytes j 0
    pending_byte j lt =
        ap (λ buf. get_or buf j 0) pending_fields.5
        ∙ get_or-memcpy d.prog.buf (overlay d.buffer 0 bytes) (length bytes) j (omega (arith, v))
        ∙ ground arith
        ∙ get_or-overlay d.buffer 0 bytes j j 0 (omega arith) lt (omega (arith, v))

    pending_half :
        (k : ℕ) → k < length bytes / 2 → half_at pending.prog.buf (2 * k) ≡ half_at bytes (2 * k)
    pending_half k lt =
        omega (arith, pending_byte (2 * k) (omega arith), pending_byte (2 * k + 1) (omega arith))

    pending-IsValid : IsValid pending
    unfolding pending run step
    pending-IsValid = usbdfu_control_request-IsValid cfg getstatus_packet 6 false _ _ (
        usbdfu_control_request-IsValid cfg (dnload_packet n (length bytes)) (length bytes) false _ _
          received)
      where
        received : IsValid (record d { buffer = overlay d.buffer 0 bytes })
        received = record {
          buffer_size = length-overlay d.buffer 0 bytes ∙ v.buffer_size;
          prog_size = v.prog_size;
          len_fits = v.len_fits;
          pending = v.pending;
        }

    run_block : run cfg (block_events n bytes) d m ≡ usbdfu_getstatus_complete cfg pending m
    unfolding pending run step usbdfu_control_request handle_request
    run_block = refl

    module _ (base : ℕ) (numbered : n ≢ 0) (address : block_addr d.prog.addr n ≡ base)
        (low : start_addr cfg ≤ base) (high : base + length bytes ≤ end_addr cfg) where
      pending-IsPending : IsPending cfg pending base
      pending-IsPending = record {
        busy = pending_fields.0;
        numbered = λ e. numbered (sym pending_fields.1 ∙ e);
        address = ap₂ block_addr pending_fields.3 pending_fields.1 ∙ address;
        passes =
            rw (pending_fields.2)
              ((in_app_iff_InApp cfg base (length bytes) (omega arith)).1 (low, high));
        fits = omega (arith, pending_fields);
      }

      -- What the events of one block do.
      after : Dfu × Machine
      after = run cfg (block_events n bytes) d m

      after-IsValid : IsValid after.0
      unfolding after
      after-IsValid = rw run_block (usbdfu_getstatus_complete-IsValid cfg pending m pending-IsValid)

      after_addr : after.0.prog.addr ≡ d.prog.addr
      unfolding after
      after_addr = rw run_block (
          ap (λ (q : Prog). q.addr) (complete_prog cfg pending m base pending-IsPending)
          ∙ pending_fields.3)

      after-IsSwept : IsSwept cfg after.0
      unfolding after
      after-IsSwept = rw run_block (complete-IsSwept cfg pending m base pending-IsPending)

      after_stores :
          (k : ℕ)
          → k < length bytes / 2
          → stored after.1.log (base + 2 * k) ≡ some (half_at bytes (2 * k))
      unfolding after
      after_stores k lt = rw run_block (
          complete_stores cfg pending m base pending-IsPending k (rw (pending_fields.2) lt)
          ∙ ap some (pending_half k lt))

      after_outside :
          (a : ℕ)
          → IsSwept cfg d
          → base / 1024 ≢ a / 1024
          → (a < base) ⊎ (base + length bytes ≤ a)
          → stored after.1.log a ≡ stored m.log a
      unfolding after
      after_outside a s other out = rw run_block (
          complete_outside cfg pending m base pending-IsPending a
            (record { swept = rw (pending_fields.4) (s.swept) }) other
            (rw (pending_fields.2) (omega arith)))

-- What is known of the state `r` once the block `bytes` has been written at `base`.
pub record IsWritten (cfg : Config) (d : Dfu) (m : Machine) (bytes : List ℕ) (base : ℕ)
    (r : Dfu × Machine) : Type 0 where
  pub valid : IsValid r.0
  pub done : IsSwept cfg r.0
  pub addr : r.0.prog.addr ≡ d.prog.addr
  pub stores :
      (k : ℕ) → k < length bytes / 2 → stored r.1.log (base + 2 * k) ≡ some (half_at bytes (2 * k))
  pub outside :
      (a : ℕ)
      → IsSwept cfg d
      → base / 1024 ≢ a / 1024
      → (a < base) ⊎ (base + length bytes ≤ a)
      → stored r.1.log a ≡ stored m.log a

pub block_IsWritten :
    (cfg : Config) (i : ℕ) (bytes : List ℕ) (d : Dfu) (m : Machine)
    → IsValid d
    → length bytes ≡ dfu_transfer_size
    → start_addr cfg ≤ d.prog.addr
    → d.prog.addr + suc i * 1024 ≤ end_addr cfg
    → IsWritten cfg d m bytes (d.prog.addr + i * 1024) (run cfg (block_events (i + 2) bytes) d m)
unfolding after
block_IsWritten cfg i bytes d m v full low high = record {
  valid = after-IsValid cfg (i + 2) bytes d m v nonempty fits base numbered address low' high';
  done = after-IsSwept cfg (i + 2) bytes d m v nonempty fits base numbered address low' high';
  addr = after_addr cfg (i + 2) bytes d m v nonempty fits base numbered address low' high';
  stores = after_stores cfg (i + 2) bytes d m v nonempty fits base numbered address low' high';
  outside = after_outside cfg (i + 2) bytes d m v nonempty fits base numbered address low' high';
}
  where
    base : ℕ
    base = d.prog.addr + i * 1024

    nonempty : 0 < length bytes
    nonempty = omega arith

    fits : length bytes ≤ dfu_transfer_size
    fits = omega arith

    numbered : i + 2 ≢ 0
    numbered = omega arith

    address : block_addr d.prog.addr (i + 2) ≡ base
    address = omega arith

    low' : start_addr cfg ≤ base
    low' = omega arith

    high' : base + length bytes ≤ end_addr cfg
    high' = omega arith
