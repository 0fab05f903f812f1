-- ===== src/Dfu/Session.antt =====
-- A DFU session: the host's data stages, its requests and the completions, in any order, as the
-- USB code delivers them to src/dfu.cpp.
use ln_dso_stm32_dfu_bootloa.Common.{ℕ, ◌+◌, ◌≡◌, refl, false, List, [], ◌∷◌, ◌++◌, length, overlay}
use ln_dso_stm32_dfu_bootloa.Machine.{Machine}
use ln_dso_stm32_dfu_bootloa.Config.{Config}
use ln_dso_stm32_dfu_bootloa.Dfu.Types.{SetupData}
use ln_dso_stm32_dfu_bootloa.Dfu.{Dfu, usbdfu_getstatus_complete}
use ln_dso_stm32_dfu_bootloa.Dfu.Requests.{usbdfu_control_request}

-- `receive` is a data stage that fills the start of `usbd_control_buffer`, `request` a call of
-- `usbdfu_control_request`, `complete` a call of the completion callback.
pub data Event : Type 0 where
  receive : List ℕ → Event
  request : SetupData → ℕ → Event
  complete : Event

unfoldable pub step : Config → Event → Dfu → Machine → Dfu × Machine
step cfg (receive bytes) d m = (record d { buffer = overlay d.buffer 0 bytes }, m)
step cfg (request req len) d m =
    let r = usbdfu_control_request cfg req len false d m in (r.dfu, r.machine)
step cfg complete d m = usbdfu_getstatus_complete cfg d m

unfoldable pub run : Config → List Event → Dfu → Machine → Dfu × Machine
run cfg [] d m = (d, m)
run cfg (e ∷ es) d m = let (d', m') = step cfg e d m in run cfg es d' m'

-- The host's packets: DNLOAD of block `n` with `len` bytes, and GETSTATUS.
abbrev pub dnload_packet : ℕ → ℕ → SetupData
dnload_packet n len = record {
  bm_request_type = 0x21;
  b_request = 1;
  w_value = n;
  w_index = 0;
  w_length = len;
}

abbrev pub getstatus_packet : SetupData
getstatus_packet = record {
  bm_request_type = 0xa1;
  b_request = 3;
  w_value = 0;
  w_index = 0;
  w_length = 6;
}

-- What a host sends to write block `n`.
abbrev pub block_events : ℕ → List ℕ → List Event
block_events n bytes =
    receive bytes
    ∷ request (dnload_packet n (length bytes)) (length bytes)
    ∷ request getstatus_packet 6
    ∷ complete
    ∷ []

-- The blocks of an image, of which the first has number `i + 2`.
abbrev pub image_events : ℕ → List (List ℕ) → List Event
image_events i [] = []
image_events i (b ∷ blocks) = block_events (i + 2) b ++ image_events (i + 1) blocks

pub run-append :
    (cfg : Config) (es fs : List Event) (d : Dfu) (m : Machine)
    → run cfg (es ++ fs) d m ≡ (let (d', m') = run cfg es d m in run cfg fs d' m')
unfolding run
run-append cfg [] fs d m = refl
run-append cfg (e ∷ es) fs d m = run-append cfg es fs (step cfg e d m).0 (step cfg e d m).1
