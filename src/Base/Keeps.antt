-- ===== src/Base/Keeps.antt =====
-- Relations between the state before a computation and the state after it, whatever it answers.
use mathlib.Core.Path.{◌≡◌, refl}
use rustsync.Base.Exec.{Exec, Result, ok, err, reads, ◌>>=◌, continue}

-- A relation that a computation keeps step by step
pub record IsPreorder {ℓ} {S : Type ℓ} (R : S → S → Type ℓ) : Type ℓ where
  pub same : (s : S) → R s s
  pub further : (s t u : S) → R s t → R t u → R s u

module _ {ℓ} {E S A B : Type ℓ} (R : S → S → Type ℓ) (p : IsPreorder R) where
  -- A step that reads, and then the rest, which may use that the step succeeded
  pub Keeps-reads :
      (s : S) (r : S → Result E A) (f : A → Exec E S B)
      → ((a : A) → r s ≡ ok a → R s (f a s).1)
      → R s ((reads r >>= f) s).1
  unfolding ◌>>=◌
  Keeps-reads s r f h = Keeps-continue (r s) f h
    where
      Keeps-continue :
          (q : Result E A) (f : A → Exec E S B)
          → ((a : A) → q ≡ ok a → R s (f a s).1)
          → R s (continue q f s).1
      Keeps-continue (ok a) f h = h a refl
      Keeps-continue (err e) f h = p.same s

  Keeps-then :
      (s : S) (r : Result E A × S) (f : A → Exec E S B)
      → R s r.1
      → ((a : A) → r.0 ≡ ok a → R r.1 (f a r.1).1)
      → R s (continue r.0 f r.1).1
  Keeps-then s (ok a, t) f here h = p.further s t (f a t).1 here (h a refl)
  Keeps-then s (err e, t) f here h = here

  -- A step that changes the state, and then the rest
  pub Keeps-bind :
      (s : S) (m : Exec E S A) (f : A → Exec E S B)
      → R s (m s).1
      → ((a : A) → (m s).0 ≡ ok a → R (m s).1 (f a (m s).1).1)
      → R s ((m >>= f) s).1
  unfolding ◌>>=◌
  Keeps-bind s m f here h = Keeps-then s (m s) f here h
