-- ===== src/Common/Options.antt =====
-- Results that may be missing: one step after the other, and what holds of them.
use mathlib.Core.Option.{Option, none, some}
use mathlib.Core.Bool.{Bool, true, false}
use mathlib.Core.Path.{◌≡◌, refl}
use native.Mathlib.Omega.{arith}
use ln_dso_stm32_dfu_bootloa.Common.Tests.{if◌then◌else◌}

infixl 5 ◌>>=◌
abbrev pub ◌>>=◌ : {A B : Type 0} → Option A → (A → Option B) → Option B
none >>= f = none
some a >>= f = f a

pub bind_same :
    {A B : Type 0} {f g : A → Option B} (o : Option A)
    → ((a : A) → f a ≡ g a)
    → (o >>= f) ≡ (o >>= g)
bind_same none same = refl
bind_same (some a) same = same a

-- What holds of a result, if there is one.
pub record Holds {A : Type 0} (P : A → Type 0) (o : Option A) : Type 0 where
  pub holds : (a : A) → o ≡ some a → P a

pub none-Holds : {A : Type 0} (P : A → Type 0) → Holds P none
none-Holds P = record { holds = λ a e. absurd (ground arith) }

pub some-Holds : {A : Type 0} (P : A → Type 0) (a : A) → P a → Holds P (some a)
some-Holds P a h = record { holds = λ b e. let same : a ≡ b = ground arith in rw same at h }

pub bind-Holds :
    {A B : Type 0} {P : A → Type 0} {Q : B → Type 0} (o : Option A) (f : A → Option B)
    → Holds P o
    → ((a : A) → P a → Holds Q (f a))
    → Holds Q (o >>= f)
bind-Holds none f h g = none-Holds _
bind-Holds (some a) f h g = g a (h.holds a refl)

pub if-Holds :
    {A : Type 0} {P : A → Type 0} (b : Bool) (o o' : Option A)
    → Holds P o
    → Holds P o'
    → Holds P (if b then o else o')
if-Holds true o o' h h' = h
if-Holds false o o' h h' = h'

pub elim-Holds :
    {A R : Type 0} {P : R → Type 0} (o : Option A) (k : A → Option R)
    → ((x : A) → Holds P (k x))
    → Holds P (elim o [ none ↦ none | some x ↦ k x ])
elim-Holds none k f = none-Holds _
elim-Holds (some x) k f = f x

pub trivial-Holds : {A : Type 0} (o : Option A) → Holds (λ _. Unit) o
trivial-Holds o = record { holds = λ _ _. tt }
