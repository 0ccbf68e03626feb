-- ===== src/Base/Chain.antt =====
-- `?` between results that touch no state, for `do` blocks.
use mathlib.Core.Path.{◌≡◌, refl}
use rustsync.Base.Exec.{Result, ok, err}

infixl 10 ◌>>=◌ ◌>>◌
abbrev pub ◌>>=◌ {ℓ κ μ} :
    {E : Type ℓ} {A : Type κ} {B : Type μ} → Result E A → (A → Result E B) → Result E B
ok a >>= f = f a
err e >>= f = err e

abbrev pub ◌>>◌ {ℓ κ} : {E : Type ℓ} {B : Type κ} → Result E (Unit {0}) → Result E B → Result E B
m >> n = m >>= λ _. n

module _ {ℓ κ μ} {E : Type ℓ} {X : Type κ} {Y : Type μ} where
  -- The value of a chain that succeeds came from steps that succeed.
  pub >>=-eq-ok :
      (next : X → Result E Y) (last : Y) (step : Result E X)
      → step >>= next ≡ ok last
      → (x : X) × (step ≡ ok x) × (next x ≡ ok last)
  >>=-eq-ok next last (ok x) run = (x, refl, run)
  >>=-eq-ok next last (err why) run = cc
