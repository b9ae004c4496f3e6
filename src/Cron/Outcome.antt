-- ===== src/Cron/Outcome.antt =====
-- What a call of a parser in cron/cron.go does: it returns values, it returns an error text, it
-- panics, or a loop in it is still running after the rounds that the model gives it.
use mathlib.Core.Path.{subst}
use goscheduler.Shared.{◌≡◌, refl}
use goscheduler.Shared.Text.{Text}

-- The error texts, one constructor for each format string, with the text that it shows.
pub data Message : Type 0 where
  step_value start_value end_value invalid_format invalid_range not_int : Text → Message
  past_range not_minute not_hour not_day not_month not_weekday not_expression : Message

pub data Outcome {ℓ} (A : Type ℓ) : Type ℓ where
  ok : A → Outcome A
  fails : Message → Outcome A
  panics : Outcome A
  runs_on : Outcome A

infixl 5 ◌>>=◌
abbrev pub ◌>>=◌ {κ ℓ} : {B : Type ℓ} {A : Type κ} → Outcome A → (A → Outcome B) → Outcome B
ok a >>= f = f a
fails m >>= f = fails m
panics >>= f = panics
runs_on >>= f = runs_on

-- The first part of two parts that return a value together returns one too.
pub >>=_parts {ℓ κ} :
    {B : Type κ} {b : B} {A : Type ℓ} (f : A → Outcome B) (m : Outcome A)
    → (m >>= f) ≡ ok b
    → (a : A) × (f a ≡ ok b) × (m ≡ ok a)
>>=_parts f (ok a) returned = (a, returned, refl)
>>=_parts f (fails message) returned = absurd cc
>>=_parts f panics returned = absurd cc
>>=_parts f runs_on returned = absurd cc

-- What holds of the values, if any come back.
module _ {ℓ κ} {A : Type ℓ} where
  abbrev pub OnOk : (A → Type κ) → Outcome A → Type κ
  OnOk P (ok a) = P a
  OnOk P (fails m) = Unit
  OnOk P panics = Unit
  OnOk P runs_on = Unit

  pub OnOk-apply : (P : A → Type κ) (m : Outcome A) {a : A} → OnOk P m → m ≡ ok a → P a
  OnOk-apply P m h e = subst (OnOk P) e h

pub OnOk-mono {ℓ κ μ} :
    {A : Type ℓ} (Q : A → Type κ) (P : A → Type μ) (m : Outcome A)
    → ((a : A) → Q a → P a)
    → OnOk Q m
    → OnOk P m
OnOk-mono Q P (ok a) f h = f a h
OnOk-mono Q P _ f h = tt

pub OnOk-Unit {ℓ} : {A : Type ℓ} (m : Outcome A) → OnOk (λ _. Unit {0}) m
OnOk-Unit (ok a) = tt
OnOk-Unit _ = tt

pub OnOk->>= {ℓ κ μ ν} :
    {A : Type ℓ} {B : Type κ} (Q : A → Type μ) (P : B → Type ν) (m : Outcome A) (f : A → Outcome B)
    → OnOk Q m
    → ((a : A) → Q a → OnOk P (f a))
    → OnOk P (m >>= f)
OnOk->>= Q P (ok a) f h k = k a h
OnOk->>= Q P (fails m) f h k = tt
OnOk->>= Q P panics f h k = tt
OnOk->>= Q P runs_on f h k = tt
