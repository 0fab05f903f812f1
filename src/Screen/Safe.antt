-- ===== src/Screen/Safe.antt =====
-- The accesses of the display driver and of src/lcd.cpp: they leave the boot loader's flash alone.
use ln_dso_stm32_dfu_bootloa.Common.{ℕ, zero, suc, List, get_or, drop, arith}
use ln_dso_stm32_dfu_bootloa.Machine.{Machine}
use ln_dso_stm32_dfu_bootloa.Config.{Config}
use ln_dso_stm32_dfu_bootloa.Usb.Safe.{IsSafeSoFar, store-Safe, store_port-Safe}
use ln_dso_stm32_dfu_bootloa.Screen.Ili.{
  Ili, gpio_brr, gpio_bsrr, ili_wr, ili_dc, ili_dc_cmd, ili_dc_dat, ili_wr_strobe, ili_write_8bit,
  ili_write_command_8bit, write_bytes, write_cmd_param, ili_set_address_window, ili_send_words,
  fill_pixels, ili_fill_color, ili_fill_screen, ili_rotate_display,
}

module _ (cfg : Config) where
  pub dc_cmd-Safe : (m : Machine) → IsSafeSoFar cfg m → IsSafeSoFar cfg (ili_dc_cmd m)
  unfolding ili_dc_cmd
  dc_cmd-Safe m = store_port-Safe cfg (gpio_brr 2) ili_dc m (omega arith) (omega arith)

  pub dc_dat-Safe : (m : Machine) → IsSafeSoFar cfg m → IsSafeSoFar cfg (ili_dc_dat m)
  unfolding ili_dc_dat
  dc_dat-Safe m = store-Safe cfg (gpio_bsrr 2) ili_dc m (omega arith) (omega arith)

  write_8bit-Safe : (d : ℕ) (m : Machine) → IsSafeSoFar cfg m → IsSafeSoFar cfg (ili_write_8bit d m)
  unfolding ili_write_8bit ili_wr_strobe
  write_8bit-Safe d m h = store-Safe cfg (gpio_bsrr 2) ili_wr _ (omega arith) (omega arith) (
      store_port-Safe cfg (gpio_brr 2) ili_wr _ (omega arith) (omega arith)
        (store-Safe cfg (gpio_bsrr 1) _ m (omega arith) (omega arith) h))

  pub command-Safe :
      (cmd : ℕ) (m : Machine) → IsSafeSoFar cfg m → IsSafeSoFar cfg (ili_write_command_8bit cmd m)
  unfolding ili_write_command_8bit
  command-Safe cmd m h = write_8bit-Safe cmd _ (dc_cmd-Safe m h)

  write_bytes-Safe :
      (n : ℕ) (bytes : List ℕ) (m : Machine)
      → IsSafeSoFar cfg m
      → IsSafeSoFar cfg (write_bytes n bytes m)
  unfolding write_bytes
  write_bytes-Safe zero bytes m h = h
  write_bytes-Safe (suc n) bytes m h =
      write_bytes-Safe n (drop 1 bytes) _ (write_8bit-Safe (get_or bytes 0 0) m h)

  pub write_cmd_param-Safe :
      (cmd size : ℕ) (bytes : List ℕ) (m : Machine)
      → IsSafeSoFar cfg m
      → IsSafeSoFar cfg (write_cmd_param cmd size bytes m)
  unfolding write_cmd_param
  write_cmd_param-Safe cmd size bytes m h =
      write_bytes-Safe size bytes _ (dc_dat-Safe _ (command-Safe cmd m h))

  pub set_address_window-Safe :
      (x1 y1 x2 y2 : ℕ) (m : Machine)
      → IsSafeSoFar cfg m
      → IsSafeSoFar cfg (ili_set_address_window x1 y1 x2 y2 m)
  unfolding ili_set_address_window
  set_address_window-Safe x1 y1 x2 y2 m h =
      command-Safe _ _ (write_cmd_param-Safe _ _ _ _ (write_cmd_param-Safe _ _ _ m h))

  pub send_words-Safe :
      (n : ℕ) (words : List ℕ) (m : Machine)
      → IsSafeSoFar cfg m
      → IsSafeSoFar cfg (ili_send_words n words m)
  unfolding ili_send_words
  send_words-Safe zero words m h = h
  send_words-Safe (suc n) words m h =
      send_words-Safe n (drop 1 words) _ (write_8bit-Safe _ _ (write_8bit-Safe _ m h))

  fill_pixels-Safe :
      (color n : ℕ) (m : Machine) → IsSafeSoFar cfg m → IsSafeSoFar cfg (fill_pixels color n m)
  unfolding fill_pixels
  fill_pixels-Safe color zero m h = h
  fill_pixels-Safe color (suc n) m h =
      fill_pixels-Safe color n _ (write_8bit-Safe _ _ (write_8bit-Safe _ m h))

  pub fill_screen-Safe :
      (color : ℕ) (g : Ili) (m : Machine)
      → IsSafeSoFar cfg m
      → IsSafeSoFar cfg (ili_fill_screen color g m)
  unfolding ili_fill_screen ili_fill_color
  fill_screen-Safe color g m h =
      fill_pixels-Safe _ _ _ (dc_dat-Safe _ (set_address_window-Safe _ _ _ _ m h))

  pub rotate-Safe :
      (r : ℕ) (g : Ili) (m : Machine)
      → IsSafeSoFar cfg m
      → IsSafeSoFar cfg (ili_rotate_display r g m).1
  unfolding ili_rotate_display
  rotate-Safe r g m h = write_cmd_param-Safe _ _ _ m h
