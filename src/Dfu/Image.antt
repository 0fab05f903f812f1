-- ===== src/Dfu/Image.antt =====
-- A whole image, sent block by block to src/dfu.cpp, and the flash that it leaves.
use ln_dso_stm32_dfu_bootloa.Common.{
  ℕ, zero, suc, ◌+◌, ◌*◌, ◌%◌, ◌≤◌, ◌<◌, ◌≡◌, refl, inl, List, [], ◌∷◌, some, length, get_or,
  half_at, ◌∙◌, ap, arith,
}
use ln_dso_stm32_dfu_bootloa.Machine.{Machine}
use ln_dso_stm32_dfu_bootloa.Flash.Stored.{stored}
use ln_dso_stm32_dfu_bootloa.Config.{Config, start_addr, end_addr}
use ln_dso_stm32_dfu_bootloa.Dfu.{Dfu, dfu_transfer_size}
use ln_dso_stm32_dfu_bootloa.Dfu.Invariant.{IsValid}
use ln_dso_stm32_dfu_bootloa.Dfu.Download.{IsSwept}
use ln_dso_stm32_dfu_bootloa.Dfu.Session.{run, block_events, image_events, run-append}
use ln_dso_stm32_dfu_bootloa.Dfu.Block.{IsWritten, block_IsWritten}

-- Every block has the transfer size.
abbrev pub AreFull : List (List ℕ) → Type 0
AreFull [] = Unit
AreFull (b ∷ blocks) = (length b ≡ dfu_transfer_size) × AreFull blocks

image_outside :
    (cfg : Config) (blocks : List (List ℕ)) (i : ℕ) (d : Dfu) (m : Machine)
    → IsValid d
    → IsSwept cfg d
    → AreFull blocks
    → d.prog.addr % 1024 ≡ 0
    → start_addr cfg ≤ d.prog.addr
    → d.prog.addr + (i + length blocks) * 1024 ≤ end_addr cfg
    → (a : ℕ) → a < d.prog.addr + i * 1024
    → stored (run cfg (image_events i blocks) d m).1.log a ≡ stored m.log a
image_outside cfg [] i d m v s full page low high a lt = unfold run in refl
image_outside cfg (b ∷ blocks) i d m v s full page low high a lt =
    ap (λ (r : Dfu × Machine). stored r.1.log a)
      (run-append cfg (block_events (i + 2) b) (image_events (i + 1) blocks) d m)
    ∙ image_outside cfg blocks (i + 1) _ _ w.valid w.done full.1 (rw (w.addr) page)
        (rw (w.addr) low) (rw (w.addr) (omega arith)) a (rw (w.addr) (omega arith))
    ∙ w.outside a s (omega arith) (inl lt)
  where
    w : IsWritten cfg d m b (d.prog.addr + i * 1024) (run cfg (block_events (i + 2) b) d m)
    w = block_IsWritten cfg i b d m v full.0 low (omega arith)

-- From any valid state with the address pointer set to a page of the application's flash, the events of
-- an image of full blocks that fits there leave in the flash, as the half-word stored last at each
-- address of the image, with its page not erased since, the half-word of the image: block `j` of the list lies
-- `(i + j) * 1024` bytes above the pointer, where `i + 2` is the number of the first block.
-- That an address was blank before its half-word was stored is not part of it.
pub image_is_stored :
    (cfg : Config) (blocks : List (List ℕ)) (i : ℕ) (d : Dfu) (m : Machine)
    → IsValid d
    → AreFull blocks
    → d.prog.addr % 1024 ≡ 0
    → start_addr cfg ≤ d.prog.addr
    → d.prog.addr + (i + length blocks) * 1024 ≤ end_addr cfg
    → (j k : ℕ) → j < length blocks
    → k < 512
    → stored (run cfg (image_events i blocks) d m).1.log (d.prog.addr + (i + j) * 1024 + 2 * k)
      ≡ some (half_at (get_or blocks j []) (2 * k))
image_is_stored cfg [] i d m v full page low high j k jl kl = elim jl [ ]
image_is_stored cfg (b ∷ blocks) i d m v full page low high zero k jl kl =
    ap (λ (r : Dfu × Machine). stored r.1.log (d.prog.addr + (i + 0) * 1024 + 2 * k))
      (run-append cfg (block_events (i + 2) b) (image_events (i + 1) blocks) d m)
    ∙ image_outside cfg blocks (i + 1) _ _ w.valid w.done full.1 (rw (w.addr) page)
        (rw (w.addr) low) (rw (w.addr) (omega arith)) _ (rw (w.addr) (omega arith))
    ∙ ap (stored (run cfg (block_events (i + 2) b) d m).1.log) (
        let e : d.prog.addr + (i + 0) * 1024 + 2 * k ≡ d.prog.addr + i * 1024 + 2 * k =
          omega arith in
        e)
    ∙ w.stores k (omega arith)
  where
    w : IsWritten cfg d m b (d.prog.addr + i * 1024) (run cfg (block_events (i + 2) b) d m)
    w = block_IsWritten cfg i b d m v full.0 low (omega arith)
image_is_stored cfg (b ∷ blocks) i d m v full page low high (suc j) k jl kl =
    ap (λ (r : Dfu × Machine). stored r.1.log (d.prog.addr + (i + suc j) * 1024 + 2 * k))
      (run-append cfg (block_events (i + 2) b) (image_events (i + 1) blocks) d m)
    ∙ ap (stored (run cfg (image_events (i + 1) blocks) r.0 r.1).1.log) here
    ∙ image_is_stored cfg blocks (i + 1) r.0 r.1 w.valid full.1 (rw (w.addr) page) (rw (w.addr) low)
        (rw (w.addr) (omega arith)) j k (omega arith) kl
  where
    r : Dfu × Machine
    r = run cfg (block_events (i + 2) b) d m

    w : IsWritten cfg d m b (d.prog.addr + i * 1024) r
    w = block_IsWritten cfg i b d m v full.0 low (omega arith)

    here : d.prog.addr + (i + suc j) * 1024 + 2 * k ≡ r.0.prog.addr + (i + 1 + j) * 1024 + 2 * k
    here = rw (w.addr) (omega arith)
