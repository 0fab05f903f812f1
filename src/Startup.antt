-- ===== src/Startup.antt =====
-- The start-up code of arm_gd32fx/start.cpp and the allocator of lnArduino_mini/systemAlloc.cpp.
pub mod Memory
use ln_dso_stm32_dfu_bootloa.Common.{ℕ, zero, suc, ◌+◌, ◌-◌, ◌*◌, ◌/◌, u32, ltb, if◌then◌else◌}
use ln_dso_stm32_dfu_bootloa.Machine.{Machine, byte, word, load, store}
use ln_dso_stm32_dfu_bootloa.Config.{Config}
use ln_dso_stm32_dfu_bootloa.Boot.{Hash, Outcome, main}

-- The symbols of linker_script.ld.
pub record Symbols : Type 0 where
  pub lm_rom_img_cfgp : ℕ
  pub data_start : ℕ
  pub data_end : ℕ
  pub bss_start : ℕ
  pub bss_end : ℕ

-- `while (dst < end) *dst++ = *src++;` on fuel
unfoldable pub copy_words : ℕ → ℕ → ℕ → ℕ → Machine → Machine
copy_words zero dst end src m = m
copy_words (suc fuel) dst end src m =
    let (v, m') = load word src m in
    let rest = copy_words fuel (u32 (dst + 4)) end (u32 (src + 4)) (store word dst v m') in
    if ltb dst end then rest else m

-- `while (zstart < zend) *zstart++ = 0;` on fuel
unfoldable pub zero_words : ℕ → ℕ → ℕ → Machine → Machine
zero_words zero start end m = m
zero_words (suc fuel) start end m =
    let rest = zero_words fuel (u32 (start + 4)) end (store word start 0 m) in
    if ltb start end then rest else m

-- One round for each word and the test after them.
abbrev pub word_rounds : ℕ → ℕ → ℕ
word_rounds start end = (end - start) / 4 + 2

-- `libc_init` is `__libc_init_array`, which is not code of the repository.
unfoldable pub start_c : Config → Hash → Symbols → (Machine → Machine) → Machine → Outcome
start_c cfg xxh32 s libc_init m =
    let (src, m) = load word s.lm_rom_img_cfgp m in
    let m = copy_words (word_rounds s.data_start s.data_end) s.data_start s.data_end src m in
    let m = zero_words (word_rounds s.bss_start s.bss_end) s.bss_start s.bss_end m in
    main cfg xxh32 (libc_init m)

-- the first value of `fakeHeap`
abbrev pub fake_heap : ℕ
fake_heap = 0x20000000 + (20 - 10) * 1024

-- The loop that zeroes a block: `n` bytes are left.
unfoldable pub zero_bytes : ℕ → ℕ → Machine → Machine
zero_bytes zero addr m = m
zero_bytes (suc n) addr m = zero_bytes n (u32 (addr + 1)) (store byte addr 0 m)

abbrev pub rounded : ℕ → ℕ
rounded size = (size + 3) / 4 * 4

-- `fakeHeap` is a pointer to words, so the subtraction moves it by four times the rounded size.
unfoldable pub sys_alloc : ℕ → ℕ → Machine → ℕ × Machine
sys_alloc size heap m =
    let p = u32 (heap + 4294967296 - 4 * rounded size) in (p, zero_bytes size p m)

unfoldable pub calloc : ℕ → ℕ → ℕ → Machine → ℕ × Machine
calloc n elem_size heap m = sys_alloc (u32 (n * elem_size)) heap m

unfoldable pub malloc : ℕ → ℕ → Machine → ℕ × Machine
malloc n heap m = sys_alloc n heap m
