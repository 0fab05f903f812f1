-- ===== src/Screen/Sequence.antt =====
-- The tables of commands that `sendSequence` of stm32f1ili/ili9341_stm32_parallel8.cpp reads.
use ln_dso_stm32_dfu_bootloa.Common.{
  ◌>>=◌, bind_same, ℕ, zero, suc, ◌+◌, ◌<◌, ◌≡◌, refl, ◌≢◌, false, List, [], ◌∷◌, ◌++◌, Option,
  some, length, drop, ◌==◌, arith, ap, ◌∙◌,
}
use ln_dso_stm32_dfu_bootloa.Machine.{Machine}
use ln_dso_stm32_dfu_bootloa.Stubs.{x_delay}
use ln_dso_stm32_dfu_bootloa.Screen.Ili.{
  ili_write_8bit, write_bytes, write_cmd_param, fake_delay_command, send_sequence,
}

-- What an entry of a table asks for.
pub data Entry : Type 0 where
  command : ℕ → List ℕ → Entry
  pause : ℕ → Entry

-- Its bytes: the command or the mark of a delay, the number of parameters or of milliseconds, the
-- parameters.
abbrev pub entry_bytes : Entry → List ℕ
entry_bytes (command cmd params) = cmd ∷ length params ∷ params
entry_bytes (pause ms) = fake_delay_command ∷ ms ∷ []

abbrev pub table : List Entry → List ℕ
table [] = 0 ∷ []
table (e ∷ es) = entry_bytes e ++ table es

-- A command is neither the end of a table nor the mark of a delay; the numbers are bytes.
abbrev pub IsEntry : Entry → Type 0
IsEntry (command cmd params) = (cmd ≢ 0) × (cmd ≢ fake_delay_command) × (length params < 256)
IsEntry (pause ms) = ms < 256

abbrev pub AreEntries : List Entry → Type 0
AreEntries [] = Unit
AreEntries (e ∷ es) = IsEntry e × AreEntries es

-- The commands with their parameters and the delays, one after the other.
abbrev pub play : List Entry → Machine → List ℕ → Option (Machine × List ℕ)
play [] m ticks = some (m, ticks)
play (command cmd params ∷ es) m ticks =
    play es (write_cmd_param cmd (length params) params m) ticks
play (pause ms ∷ es) m ticks = x_delay ms ticks >>= λ ticks. play es m ticks

write_bytes-append :
    (xs more : List ℕ) (m : Machine)
    → write_bytes (length xs) (xs ++ more) m ≡ write_bytes (length xs) xs m
unfolding write_bytes
write_bytes-append [] more m = refl
write_bytes-append (x ∷ xs) more m = write_bytes-append xs more (ili_write_8bit x m)

command_same :
    (cmd : ℕ) (xs more : List ℕ) (m : Machine)
    → write_cmd_param cmd (length xs) (xs ++ more) m ≡ write_cmd_param cmd (length xs) xs m
unfolding write_cmd_param
command_same cmd xs more m = write_bytes-append xs more _

drop-append : (xs more : List ℕ) → drop (length xs) (xs ++ more) ≡ more
drop-append [] more = refl
drop-append (x ∷ xs) more = drop-append xs more

drop_entry :
    (cmd : ℕ) (xs more : List ℕ) → drop (2 + length xs) (cmd ∷ length xs ∷ xs ++ more) ≡ more
drop_entry cmd xs more =
    let e : 2 + length xs ≡ suc (suc (length xs)) = omega arith in
    ap (λ n. drop n (cmd ∷ length xs ∷ xs ++ more)) e ∙ drop-append xs more

-- On a table whose entries are well formed, with a round for each and one for its end, sendSequence
-- sends each command with its parameters and waits for each delay, in the order of the table, and
-- stops at its end.
pub send_sequence-table :
    (fuel : ℕ) (es : List Entry) (m : Machine) (ticks : List ℕ)
    → AreEntries es
    → length es < fuel
    → send_sequence fuel (table es) m ticks ≡ play es m ticks
unfolding send_sequence
send_sequence-table zero es m ticks h lt = absurd (omega arith)
send_sequence-table (suc fuel) [] m ticks h lt = refl
send_sequence-table (suc fuel) (pause ms ∷ es) m ticks h lt =
    bind_same (x_delay ms ticks) (λ t. send_sequence-table fuel es m t h.1 (omega arith))
send_sequence-table (suc fuel) (command cmd params ∷ es) m ticks h lt =
    let not_end : (cmd == 0) ≡ false = ground (arith, h.0.0) in
    let not_delay : (cmd == fake_delay_command) ≡ false = ground (arith, h.0.1) in
    rw (not_end, not_delay)
      (rw (drop_entry cmd params (table es)) (
        rw (command_same cmd params (table es) m) (
          send_sequence-table fuel es (write_cmd_param cmd (length params) params m) ticks h.1
            (omega arith))))
