-- ===== src/Machine/Trace.antt =====
-- Views of the accesses that the code has made: a property of each of them, and the word that was
-- stored last at an address.
use ln_dso_stm32_dfu_bootloa.Common.{
  ℕ, ◌≡◌, refl, Bool, [], ◌∷◌, Option, none, some, ◌==◌, if◌then◌else◌,
}
use ln_dso_stm32_dfu_bootloa.Machine.{
  Access, read, write, Log, Answer, Settles, ready, again, byte, half, word, poll,
}

abbrev pub All : (Access → Type 0) → Log → Type 0
All P [] = Unit
All P (x ∷ log) = P x × All P log

-- The word stored last at `a`, if there is one.
abbrev pub stored_word : Log → ℕ → Option ℕ
stored_word [] a = none
stored_word (read w b ∷ log) a = stored_word log a
stored_word (write byte b v ∷ log) a = stored_word log a
stored_word (write half b v ∷ log) a = stored_word log a
stored_word (write word b v ∷ log) a = if b == a then some v else stored_word log a

-- Polling a register is loads of it.
pub poll-All :
    (P : Access → Type 0) {answer : Answer} {a : ℕ} {done : ℕ → Bool} {log : Log}
    (s : Settles answer a done log)
    → P (read word a)
    → All P log
    → All P (poll s)
unfolding poll
poll-All P (ready e) p h = (p, h)
poll-All P (again e s) p h = poll-All P s p (p, h)

pub stored_word-poll :
    {answer : Answer} {a : ℕ} {done : ℕ → Bool} {log : Log} (s : Settles answer a done log) (b : ℕ)
    → stored_word (poll s) b ≡ stored_word log b
unfolding poll
stored_word-poll (ready e) b = refl
stored_word-poll (again e s) b = stored_word-poll s b
