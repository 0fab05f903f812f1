-- ===== src/Flash/Sweep.antt =====
-- `check_do_erase` of src/flash.h against one round for each page of the application's flash.
use ln_dso_stm32_dfu_bootloa.Common.{
  ℕ, zero, suc, ◌+◌, ◌-◌, ◌*◌, ◌≤◌, ◌<◌, ◌≡◌, refl, Bool, true, false, ap, u32, arith,
}
use ln_dso_stm32_dfu_bootloa.Machine.{Machine}
use ln_dso_stm32_dfu_bootloa.Config.{Config, IsSound, start_addr, end_addr}
use ln_dso_stm32_dfu_bootloa.Flash.{ensure_erased, erase_pages, check_do_erase}
use ln_dso_stm32_dfu_bootloa.Flash.Safe.{AllSafe, ensure_erased-AllSafe}

-- The pages `addr`, `addr + 1024`, … of which there are `n`, each erased unless it is erased.
unfoldable pub sweep : ℕ → ℕ → Machine → Machine
sweep zero addr m = m
sweep (suc n) addr m = sweep n (addr + 1024) (ensure_erased addr m)

-- With fuel for the rounds and the test after them, the loop makes one round for each page.
erase_pages-eq-sweep :
    (n fuel addr end : ℕ) (m : Machine)
    → n < fuel
    → addr + n * 1024 ≡ end
    → end < 0x10000000
    → erase_pages fuel addr end m ≡ sweep n addr m
unfolding erase_pages sweep
erase_pages-eq-sweep n zero addr end m f e b = elim f [ ]
erase_pages-eq-sweep zero (suc fuel) addr end m f e b = ground arith
erase_pages-eq-sweep (suc n) (suc fuel) addr end m f e b =
    let step : u32 (addr + 1024) ≡ addr + 1024 = omega arith in
    ground (
      arith,
      step,
      erase_pages-eq-sweep n fuel (addr + 1024) end (ensure_erased addr m) (omega arith)
          (omega arith) b,
    )

-- In a sound configuration the first call of `check_do_erase` goes once over every page from
-- `start_addr` to `end_addr`, in order, and the wrap of the addresses does not show.
pub check_do_erase-eq-sweep :
    (cfg : Config) (m : Machine)
    → IsSound cfg
    → check_do_erase cfg false m
      ≡ (true, sweep (cfg.flash_size_kb - cfg.bootldr_size_kb) (start_addr cfg) m)
unfolding check_do_erase
check_do_erase-eq-sweep cfg m s =
    ap (λ (r : Machine). (true, r))
      (erase_pages-eq-sweep (cfg.flash_size_kb - cfg.bootldr_size_kb) (cfg.flash_size_kb + 1) _ _ m
        (omega arith) (omega arith) (omega arith))

-- A second call does nothing.
pub check_do_erase_again :
    (cfg : Config) (m m' : Machine)
    → check_do_erase cfg (check_do_erase cfg false m).0 m' ≡ (true, m')
unfolding check_do_erase
check_do_erase_again cfg m m' = refl

module _ (cfg : Config) where
  sweep-AllSafe :
      (n addr : ℕ) (m : Machine)
      → start_addr cfg ≤ addr
      → addr + n * 1024 ≤ end_addr cfg
      → AllSafe cfg m
      → AllSafe cfg (sweep n addr m)
  unfolding sweep
  sweep-AllSafe zero addr m lo hi h = h
  sweep-AllSafe (suc n) addr m lo hi h =
      sweep-AllSafe n (addr + 1024) _ (omega arith) (omega arith)
        (ensure_erased-AllSafe cfg addr m (omega arith, omega arith) h)

  pub check_do_erase-AllSafe :
      (erased : Bool) (m : Machine)
      → IsSound cfg
      → AllSafe cfg m
      → AllSafe cfg (check_do_erase cfg erased m).1
  check_do_erase-AllSafe erased m s h = by_flag erased
    where
      by_flag : (b : Bool) → AllSafe cfg (check_do_erase cfg b m).1
      by_flag true = unfold check_do_erase in h
      by_flag false =
          rw (check_do_erase-eq-sweep cfg m s) (sweep-AllSafe _ _ m (omega arith) (omega arith) h)
