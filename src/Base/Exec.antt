-- ===== src/Base/Exec.antt =====
-- Fallible code that changes a state: `&mut self` with a `Result`. What was written before an error
-- stays written, so the state comes back beside the error too.
use mathlib.Core.Path.{◌≡◌, refl, sym, subst}
use mathlib.Core.Bool.{Bool}
use mathlib.Core.Option.{Option, none, some}
use rustsync.Base.Tests.{if◌then◌else◌}

pub data Result {ℓ κ} (E : Type ℓ) (A : Type κ) : Type (ℓ ⊔ κ) where
  ok : A → Result E A
  err : E → Result E A

abbrev pub Exec {ℓ} : Type ℓ → Type ℓ → Type ℓ → Type ℓ
Exec E S A = S → Result E A × S

module _ {ℓ} {E S A : Type ℓ} where
  abbrev pub pure : A → Exec E S A
  pure a s = (ok a, s)

  abbrev pub raise : E → Exec E S A
  raise e s = (err e, s)

  -- A call that reads the state only, with `?` behind it.
  abbrev pub reads : (S → Result E A) → Exec E S A
  reads f s = (f s, s)

abbrev pub modify {ℓ} : {E S : Type ℓ} → (S → S) → Exec E S (Unit {ℓ})
modify f s = (ok tt, f s)

module _ {ℓ} {E S A B : Type ℓ} where
  abbrev pub continue : Result E A → (A → Exec E S B) → Exec E S B
  continue (ok a) f s = f a s
  continue (err e) f s = (err e, s)

  infixl 10 ◌>>=◌
  unfoldable pub ◌>>=◌ : Exec E S A → (A → Exec E S B) → Exec E S B
  ◌>>=◌ m f s = continue (m s).0 f (m s).1

infixl 10 ◌>>◌
abbrev pub ◌>>◌ {ℓ} : {E S B : Type ℓ} → Exec E S (Unit {ℓ}) → Exec E S B → Exec E S B
m >> n = m >>= λ _. n

module _ {ℓ} {E : Type ℓ} where
  -- `if test { return Err(e) }` before the rest
  abbrev pub reject : {B : Type ℓ} → Bool → E → Result E B → Result E B
  reject test e rest = if test then err e else rest

  -- `option.ok_or(e)?` before the rest
  abbrev pub ok_or {κ} : {A : Type κ} → Option A → E → Result E A
  ok_or none e = err e
  ok_or (some a) e = ok a

pub ok_or-some {ℓ κ} :
    {E : Type ℓ} {A : Type κ} (o : Option A) (e : E) (a : A) → ok_or o e ≡ ok a → o ≡ some a
ok_or-some none e a h = cc
ok_or-some (some b) e a h = cc

-- How a computation may end that started in `s`: with an error and the state as it was, or with a
-- value and a state that have the property.
module _ {ℓ} {E S A : Type ℓ} where
  abbrev pub Settles : (A → S → Type ℓ) → S → Result E A × S → Type ℓ
  Settles P s (ok a, t) = P a t
  Settles P s (err e, t) = t ≡ s

module _ {ℓ} {E S A B : Type ℓ} where
  Settles-continue :
      (P : B → S → Type ℓ) (s : S) (r : Result E A) (f : A → Exec E S B)
      → ((a : A) → r ≡ ok a → Settles P s (f a s))
      → Settles P s (continue r f s)
  Settles-continue P s (ok a) f h = h a refl
  Settles-continue P s (err e) f h = refl

  -- The rest of the block may use that the call succeeded.
  pub Settles-reads :
      (P : B → S → Type ℓ) (s : S) (r : S → Result E A) (f : A → Exec E S B)
      → ((a : A) → r s ≡ ok a → Settles P s (f a s))
      → Settles P s ((reads r >>= f) s)
  unfolding ◌>>=◌
  Settles-reads P s r f h = Settles-continue P s (r s) f h

  Settles-then :
      (Q : A → S → Type ℓ) (P : B → S → Type ℓ) (s : S) (r : Result E A × S) (f : A → Exec E S B)
      → Settles Q s r
      → ((a : A) (t : S) → Q a t → Settles P s (f a t))
      → Settles P s (continue r.0 f r.1)
  Settles-then Q P s (ok a, t) f q h = h a t q
  Settles-then Q P s (err e, t) f q h = q

  -- A part that settles, and then the rest from each state that it may leave.
  pub Settles-bind :
      (Q : A → S → Type ℓ) (P : B → S → Type ℓ) (s : S) (m : Exec E S A) (f : A → Exec E S B)
      → Settles Q s (m s)
      → ((a : A) (t : S) → Q a t → Settles P s (f a t))
      → Settles P s ((m >>= f) s)
  unfolding ◌>>=◌
  Settles-bind Q P s m f q h = Settles-then Q P s (m s) f q h

-- Two changes that cannot fail end a computation, from whatever state they start.
pub Settles-modify_twice {ℓ} :
    (E : Type ℓ) {S : Type ℓ} (P : Unit {ℓ} → S → Type ℓ) (s t : S) (f g : S → S)
    → P tt (g (f t))
    → Settles P s ((modify {E = E} f >> modify g) t)
unfolding ◌>>=◌
Settles-modify_twice E P s t f g p = p

-- What holds of a computation that ends with a value. Nothing is said of one that fails.
module _ {ℓ} {E S A : Type ℓ} where
  abbrev pub Returns : (A → S → Type ℓ) → Result E A × S → Type ℓ
  Returns P (ok a, t) = P a t
  Returns P (err e, t) = Unit

module _ {ℓ} {E S A B : Type ℓ} (P : B → S → Type ℓ) where
  Returns-continue :
      (s : S) (r : Result E A) (f : A → Exec E S B)
      → ((a : A) → r ≡ ok a → Returns P (f a s))
      → Returns P (continue r f s)
  Returns-continue s (ok a) f h = h a refl
  Returns-continue s (err e) f h = tt

  pub Returns-reads :
      (s : S) (r : S → Result E A) (f : A → Exec E S B)
      → ((a : A) → r s ≡ ok a → Returns P (f a s))
      → Returns P ((reads r >>= f) s)
  unfolding ◌>>=◌
  Returns-reads s r f h = Returns-continue s (r s) f h

  Returns-then :
      (Q : A → S → Type ℓ) (r : Result E A × S) (f : A → Exec E S B)
      → Returns Q r
      → ((a : A) (t : S) → Q a t → Returns P (f a t))
      → Returns P (continue r.0 f r.1)
  Returns-then Q (ok a, t) f q h = h a t q
  Returns-then Q (err e, t) f q h = tt

  pub Returns-bind :
      (Q : A → S → Type ℓ) (s : S) (m : Exec E S A) (f : A → Exec E S B)
      → Returns Q (m s)
      → ((a : A) (t : S) → Q a t → Returns P (f a t))
      → Returns P ((m >>= f) s)
  unfolding ◌>>=◌
  Returns-bind Q s m f q h = Returns-then Q (m s) f q h

pub Returns-mono {ℓ} :
    {E S A : Type ℓ} (P Q : A → S → Type ℓ) (r : Result E A × S)
    → ((a : A) (t : S) → P a t → Q a t)
    → Returns P r
    → Returns Q r
Returns-mono P Q (ok a, t) h p = h a t p
Returns-mono P Q (err e, t) h p = tt

-- A result that is known, with what holds of every value that is returned.
pub Returns-ok {ℓ} :
    {E S A : Type ℓ} (P : A → S → Type ℓ) (r : Result E A × S) (a : A) (t : S)
    → r ≡ (ok a, t)
    → Returns P r
    → P a t
Returns-ok P r a t e h = subst (Returns P) e h

pub Returns-read {ℓ} :
    {E S A : Type ℓ} (P : A → S → Type ℓ) (r : Result E A) (s : S)
    → ((a : A) → r ≡ ok a → P a s)
    → Returns P (r, s)
Returns-read P (ok a) s h = h a refl
Returns-read P (err e) s h = tt

pub Returns-modify_twice {ℓ} :
    (E : Type ℓ) {S : Type ℓ} (P : Unit {ℓ} → S → Type ℓ) (t : S) (f g : S → S)
    → P tt (g (f t))
    → Returns P ((modify {E = E} f >> modify g) t)
unfolding ◌>>=◌
Returns-modify_twice E P t f g p = p

-- What holds already holds of every value that is returned.
pub Returns-known {ℓ} :
    {E S A X : Type ℓ} (r : Result E A × S) → X → Returns {E = E} (λ (a : A) (t : S). X) r
Returns-known (ok a, t) x = x
Returns-known (err e, t) x = tt

pub Settles-ok {ℓ} :
    {E S A : Type ℓ} (P : A → S → Type ℓ) (s : S) (r : Result E A × S) (a : A) (t : S)
    → r ≡ (ok a, t)
    → Settles P s r
    → P a t
Settles-ok P s r a t e h = subst (Settles P s) e h

-- A computation that settles leaves a state that has the property, or the state as it was.
pub Settles-state {ℓ} :
    {E S A : Type ℓ} (P : A → S → Type ℓ) (Q : S → Type ℓ) (s : S) (r : Result E A × S)
    → ((a : A) (t : S) → r ≡ (ok a, t) → P a t → Q t)
    → Q s
    → Settles P s r
    → Q r.1
Settles-state P Q s (ok a, t) h q p = h a t refl p
Settles-state P Q s (err e, t) h q p = subst Q (sym p) q

-- Running a chain step by step, forwards from what a step returns, and backwards from success.
module _ {ℓ} {E S A B : Type ℓ} where
  pub >>=-of_ok :
      (m : Exec E S A) (f : A → Exec E S B) (s : S) (a : A) (t : S) {r : Result E B × S}
      → m s ≡ (ok a, t)
      → f a t ≡ r
      → (m >>= f) s ≡ r
  unfolding ◌>>=◌
  >>=-of_ok m f s a t e h = rw e h

  continue-ok :
      (r : Result E A × S) (f : A → Exec E S B) (b : B) (u : S)
      → continue r.0 f r.1 ≡ (ok b, u)
      → (a : A) × (t : S) × (r ≡ (ok a, t)) × (f a t ≡ (ok b, u))
  continue-ok (ok a, t) f b u h = (a, t, refl, h)
  continue-ok (err e, t) f b u h = cc

  pub >>=-ok :
      (m : Exec E S A) (f : A → Exec E S B) (s : S) (b : B) (u : S)
      → (m >>= f) s ≡ (ok b, u)
      → (a : A) × (t : S) × (m s ≡ (ok a, t)) × (f a t ≡ (ok b, u))
  unfolding ◌>>=◌
  >>=-ok m f s b u h = continue-ok (m s) f b u h
