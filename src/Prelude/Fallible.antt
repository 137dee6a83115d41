-- ===== src/Prelude/Fallible.antt =====
-- Functions that may raise and keep no state: `do` blocks over `Result`.
use mathlib.Core.Path.{◌≡◌, refl}
use mathlib.Core.Logic.{◌⊎◌, inl, inr}
use mathlib.Core.Bool.{Bool, true, false}
use mathlib.Core.Option.{Option, none, some}
use trinity.Prelude.Exec.{Result, ok, err, Error}

module _ {A : Type 0} where
  abbrev pub pure : A → Result A
  pure a = ok a

  abbrev pub raise : Error → Result A
  raise e = err e

  -- A read of what may be missing.
  abbrev pub require : Error → Option A → Result A
  require e none = err e
  require e (some a) = ok a

abbrev pub raise_if : Error → Bool → Result {0} Unit
raise_if e true = err e
raise_if e false = ok tt

infixl 10 ◌>>=◌ ◌>>◌
abbrev pub ◌>>=◌ : {A B : Type 0} → Result A → (A → Result B) → Result B
ok a >>= f = f a
err e >>= f = err e

abbrev pub ◌>>◌ : {A B : Type 0} → Result A → Result B → Result B
m >> n = m >>= λ _. n

pub ok_inj : {A : Type 0} {a b : A} → ok a ≡ ok b → a ≡ b
ok_inj p = cc

pub err-ne-ok : {A : Type 0} {a : A} {e : Error} → err e ≡ ok a → ⊥
err-ne-ok p = cc

pub Result-cases :
    {A : Type 0} (r : Result A) → ((a : A) × (r ≡ ok a)) ⊎ ((e : Error) × (r ≡ err e))
Result-cases (ok a) = inl (a, refl)
Result-cases (err e) = inr (e, refl)
