-- ===== src/Boot/Decision.antt =====
-- When `main` of src/main.cpp starts the application, and for which reasons it does not.
use ln_dso_stm32_dfu_bootloa.Common.{
  ℕ, ◌+◌, ◌*◌, ◌/◌, ◌%◌, ◌^◌, ◌<◌, ◌≡◌, ◌≢◌, ◌⊎◌, ◌↔◌, refl, not, ◌&&◌, ◌||◌, u32, bit_and, bit_or,
  ltb, ◌==◌, if◌then◌else◌, arith, Bool-cases, inl, inr, ◌∙◌, ◌∷◌, some,
}
use ln_dso_stm32_dfu_bootloa.Machine.{Machine, Log, read, write, word, value, load, store, set_bits}
use ln_dso_stm32_dfu_bootloa.Machine.Trace.{stored_word}
use ln_dso_stm32_dfu_bootloa.Config.{Config, start_addr, app_address}
use ln_dso_stm32_dfu_bootloa.Board.{
  gpio, gpio_istat, gpio_b, af, input_pullup, ln_peripheral_enable, ln_exti_swd_only, ln_pin_mode,
  ln_digital_read,
}
use ln_dso_stm32_dfu_bootloa.Reboot.{marker, reboot_magic, rebooted_into_dfu, clear_reboot_flags}
use ln_dso_stm32_dfu_bootloa.Boot.{
  ◌>>=◌, csb_vtor, rcc_csr, rcc_csr_rmvf, force_dfu_io, Hash, Outcome, app, dfu, dead_end,
  check_image, start_app, decide_boot, main,
}

-- What `main` reads.
pub record Inputs : Type 0 where
  pub sig : ℕ
  pub image_size : ℕ
  pub checksum : ℕ
  pub marker_low : ℕ
  pub marker_high : ℕ
  pub pins : ℕ
  pub hash : ℕ
  pub stack : ℕ
  pub entry : ℕ

-- The memory, the marker and the pins read the same whenever `main` reads them.
pub record Reads (cfg : Config) (xxh32 : Hash) (m : Machine) (i : Inputs) : Type 0 where
  pub sig : (log : Log) → value m.answer log word (start_addr cfg) ≡ i.sig
  pub image_size : (log : Log) → value m.answer log word (u32 (start_addr cfg + 8)) ≡ i.image_size
  pub checksum : (log : Log) → value m.answer log word (u32 (start_addr cfg + 12)) ≡ i.checksum
  pub marker_low : (log : Log) → value m.answer log word marker ≡ i.marker_low
  pub marker_high : (log : Log) → value m.answer log word (marker + 4) ≡ i.marker_high
  pub pins : (log : Log) → value m.answer log word (gpio 1 + gpio_istat) ≡ i.pins
  pub hash :
      (log : Log)
      → xxh32 (record m { log = log }) (u32 (start_addr cfg + 16)) i.image_size 0x100 ≡ i.hash
  pub stack : (log : Log) → value m.answer log word (app_address cfg) ≡ i.stack
  pub entry : (log : Log) → value m.answer log word (u32 (app_address cfg + 4)) ≡ i.entry

abbrev pub AsksForDfu : Inputs → Type 0
AsksForDfu i = i.marker_low + 4294967296 * i.marker_high ≡ reboot_magic

abbrev pub KeyPressed : Inputs → Type 0
KeyPressed i = bit_and i.pins 128 ≡ 0

-- The stack pointer of the image lies in the RAM, its size is possible, and either its hash is the
-- one that it states or it states the placeholders for "no hash".
abbrev pub ImageFits : Inputs → Type 0
ImageFits i =
    (i.sig / 2 ^ 20 ≡ 0x200)
    × (i.image_size < 256 * 1024)
    × (((i.image_size ≡ 0x1234) × (i.checksum ≡ 0x5678)) ⊎ (u32 i.hash ≡ i.checksum))

-- `go_dfu` at the end of `main`, as a function of what was read.
go_dfu_of : Inputs → ℕ
go_dfu_of i =
    let g0 : ℕ = if i.marker_low + 4294967296 * i.marker_high == reboot_magic then 1 else 0 in
    let g1 = if not (bit_and i.pins 128 == 0) then g0 else bit_or g0 1 in
    let g2 = if (g1 == 0) && not (i.sig / 2 ^ 20 == 0x200) then bit_or g1 2 else g1 in
    if not (g2 == 0)
    then g2
    else if ltb i.image_size (256 * 1024)
    then if not (i.image_size == 0x1234) || not (i.checksum == 0x5678)
      then if u32 i.hash == i.checksum then g2 else bit_or g2 4
      else g2
    else 1

go_dfu_of_iff :
    (i : Inputs) → (go_dfu_of i ≡ 0) ↔ ((¬ AsksForDfu i) × (¬ KeyPressed i) × ImageFits i)
unfolding go_dfu_of
go_dfu_of_iff i = (λ e. ground arith, λ c. ground arith)

abbrev pub Accepts : Inputs → Type 0
Accepts i = (¬ AsksForDfu i) × (¬ KeyPressed i) × ImageFits i

-- The marker's two words were stored as 0 last.
abbrev pub MarkerCleared : Machine → Type 0
MarkerCleared m = (stored_word m.log marker ≡ some 0) × (stored_word m.log (marker + 4) ≡ some 0)

-- The application is started with its own stack pointer and entry point and with the vector table
-- moved to it; the DFU mode is entered for a reason; in both cases the marker is gone.
abbrev pub EndsWell : Config → Inputs → Outcome → Type 0
EndsWell cfg i (app sp pc m) =
    Accepts i
    × (sp ≡ i.stack)
    × (pc ≡ i.entry)
    × (stored_word m.log csb_vtor ≡ some (app_address cfg % 65536))
    × MarkerCleared m
EndsWell cfg i (dfu flags m) = (¬ Accepts i) × (flags ≢ 0) × MarkerCleared m
EndsWell cfg i dead_end = ⊥

-- A log that ends with the clearing of the marker.
abbrev cleared : Log → Log
cleared log = write word (marker + 4) 0 ∷ write word marker 0 ∷ log

module _ (cfg : Config) (xxh32 : Hash) (m : Machine) (i : Inputs) (r : Reads cfg xxh32 m i) where
  -- The part of `main` that switches the ports on and reads the key.
  prepare_lem :
      (f : Machine → Outcome) (log : Log)
      → (log' : Log) × ((do
        a ← ln_peripheral_enable gpio_b (record m { log = log })
        b ← ln_peripheral_enable af a
        c ← ln_pin_mode force_dfu_io input_pullup (ln_exti_swd_only b)
        f c)
          ≡ f (record m { log = log' }))
  unfolding ln_peripheral_enable ln_exti_swd_only ln_pin_mode load store set_bits
  prepare_lem f log = (_, refl)

  decide_boot_lem :
      (log : Log)
      → (log' : Log) × (decide_boot cfg xxh32 i.sig i.image_size i.checksum
            (i.marker_low + 4294967296 * i.marker_high == reboot_magic)
            (record m { log = log })
          ≡ start_app cfg (go_dfu_of i) (record m { log = cleared log' }))
  unfolding decide_boot check_image clear_reboot_flags ln_digital_read load store set_bits go_dfu_of
  decide_boot_lem log = (
    write word rcc_csr (bit_or (value m.answer (read word key ∷ log) word rcc_csr) rcc_csr_rmvf)
        ∷ read word rcc_csr
        ∷ read word key
        ∷ log,
    rw (r.pins, r.hash) refl,
  )
    where
      key : ℕ
      key = gpio 1 + gpio_istat

  -- `main` comes to its end with the flags that its inputs give, the marker cleared.
  main_lem :
      (log : Log) × (main cfg xxh32 m
        ≡ start_app cfg (go_dfu_of i) (record m { log = cleared log }))
  unfolding main rebooted_into_dfu load
  main_lem =
      let p =
        prepare_lem
          (decide_boot cfg xxh32 i.sig i.image_size i.checksum
            (i.marker_low + 4294967296 * i.marker_high == reboot_magic))
          loaded in
      let q = decide_boot_lem p.0 in
      (q.0, rw (r.sig, r.image_size, r.checksum, r.marker_low, r.marker_high) (p.1 ∙ q.1))
    where
      loaded : Log
      loaded =
          read word (marker + 4)
          ∷ read word marker
          ∷ read word (u32 (start_addr cfg + 12))
          ∷ read word (u32 (start_addr cfg + 8))
          ∷ read word (start_addr cfg)
          ∷ m.log

  start_app-EndsWell :
      (log : Log) → EndsWell cfg i (start_app cfg (go_dfu_of i) (record m { log = cleared log }))
  unfolding start_app store load
  start_app-EndsWell log = elim (Bool-cases (go_dfu_of i == 0)) [
    | inl none_set ↦
        rw none_set ((go_dfu_of_iff i).0 (ground arith), r.stack _, r.entry _, refl, (refl, refl))
    | inr some_set ↦
        rw some_set
          (λ c. absurd (ground (arith, (go_dfu_of_iff i).1 c)), ground arith, (refl, refl))
  ]

  -- If the memory and the pins read the same throughout, `main` never stands still, and it starts
  -- the application exactly if the marker does not ask for the DFU mode, the key is released and the
  -- image fits: its stack pointer lies in the RAM, its size is below 256 KB, and its hash is the
  -- stated one or the placeholders stand for both. Otherwise it enters the DFU mode with a reason. In
  -- both cases the reboot marker has been cleared.
  pub main-EndsWell : EndsWell cfg i (main cfg xxh32 m)
  main-EndsWell = let q = main_lem in rw (q.1) (start_app-EndsWell q.0)
