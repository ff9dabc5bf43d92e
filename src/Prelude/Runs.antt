-- ===== src/Prelude/Runs.antt =====
-- A handler that emits effects and may panic: the result, or `none` for a panic, with the effects
-- emitted until then, in order.
use mathlib.Core.Option.{Option, none, some}
use mathlib.Core.List.{List, [], ◌∷◌, ◌++◌}

abbrev pub Run {ℓ κ} : Type ℓ → Type κ → Type (ℓ ⊔ κ)
Run E A = Option A × List E

module _ {ℓ κ} {E : Type ℓ} {A : Type κ} where
  abbrev pub pure : A → Run E A
  pure a = (some a, [])

  -- `Option::unwrap`, `Result::unwrap`
  abbrev pub unwrap : Option A → Run E A
  unwrap o = (o, [])

  -- `unreachable!()` and the like
  abbrev pub panic : Run E A
  panic = (none, [])

abbrev pub emit {ℓ} : {E : Type ℓ} → E → Run E (Unit {0})
emit e = (some tt, e ∷ [])

module _ {ℓ κ μ} {E : Type ℓ} {A : Type κ} {B : Type μ} where
  abbrev pub continue : Option A → List E → (A → Run E B) → Run E B
  continue none done f = (none, done)
  continue (some a) done f = let (r, more) = f a in (r, done ++ more)

  infixl 5 ◌>>=◌ ◌>>◌
  abbrev pub ◌>>=◌ : Run E A → (A → Run E B) → Run E B
  m >>= f = let (r, done) = m in continue r done f

  abbrev pub ◌>>◌ : Run E A → Run E B → Run E B
  m >> k = m >>= λ _. k
