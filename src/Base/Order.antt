-- ===== src/Base/Order.antt =====
-- Keys with a total comparison (`Ord` and `Eq` of the source), and its instances.
use Prim.Native.Nat.{ℕ, compare, Ordering}
use mathlib.Core.Path.{◌≡◌, refl}
use mathlib.Core.Logic.{◌↔◌}
use mathlib.Core.Bool.{Bool, true, false}
use mathlib.Core.Option.{Option, none, some}
use mathlib.Core.List.{[], ◌∷◌}
use native.Mathlib.Omega.{arith}
use rustsync.Base.Lists.{Bytes}

pub record Ord {ℓ} (A : Type ℓ) : Type ℓ where
  pub cmp : A → A → Ordering
  pub cmp_iff : (a b : A) → (cmp a b ≡ Ordering.eq) ↔ (a ≡ b)

-- `==` of a type whose equality agrees with its order.
infix 50 ◌==◌
abbrev pub ◌==◌ {ℓ} : {A : Type ℓ} ⦃o : Ord A⦄ → A → A → Bool
◌==◌ ⦃o⦄ a b = elim (o.cmp a b) [ Ordering.eq ↦ true | _ ↦ false ]

pub nat_cmp_iff : (a b : ℕ) → (compare a b ≡ Ordering.eq) ↔ (a ≡ b)
nat_cmp_iff a b = (λ h. ground arith, λ h. ground arith)

instance abbrev pub nat_ord : Ord ℕ
nat_ord = record { cmp = compare; cmp_iff = nat_cmp_iff }

-- `Ordering::then`
abbrev pub then_cmp : Ordering → Ordering → Ordering
then_cmp Ordering.lt d = Ordering.lt
then_cmp Ordering.eq d = d
then_cmp Ordering.gt d = Ordering.gt

-- The lexicographic order of byte strings.
unfoldable pub bytes_cmp : Bytes → Bytes → Ordering
bytes_cmp [] [] = Ordering.eq
bytes_cmp [] (b ∷ bs) = Ordering.lt
bytes_cmp (a ∷ as') [] = Ordering.gt
bytes_cmp (a ∷ as') (b ∷ bs) = then_cmp (compare a b) (bytes_cmp as' bs)

pub bytes_cmp_iff : (a b : Bytes) → (bytes_cmp a b ≡ Ordering.eq) ↔ (a ≡ b)
unfolding bytes_cmp
bytes_cmp_iff [] [] = (λ h. refl, λ h. refl)
bytes_cmp_iff [] (b ∷ bs) = (λ h. ground arith, λ h. ground arith)
bytes_cmp_iff (a ∷ as') [] = (λ h. ground arith, λ h. ground arith)
bytes_cmp_iff (a ∷ as') (b ∷ bs) =
    (λ h. ground (arith, bytes_cmp_iff as' bs), λ h. ground (arith, bytes_cmp_iff as' bs))

abbrev flip : Ordering → Ordering
flip Ordering.lt = Ordering.gt
flip Ordering.eq = Ordering.eq
flip Ordering.gt = Ordering.lt

pub bytes_cmp-flip : (a b : Bytes) → bytes_cmp b a ≡ flip (bytes_cmp a b)
unfolding bytes_cmp
bytes_cmp-flip [] [] = refl
bytes_cmp-flip [] (b ∷ bs) = refl
bytes_cmp-flip (a ∷ as') [] = refl
bytes_cmp-flip (a ∷ as') (b ∷ bs) = ground (arith, bytes_cmp-flip as' bs)

pub bytes_cmp_trans :
    (a b c : Bytes)
    → bytes_cmp a b ≡ Ordering.lt
    → bytes_cmp b c ≡ Ordering.lt
    → bytes_cmp a c ≡ Ordering.lt
unfolding bytes_cmp
bytes_cmp_trans [] [] c h i = i
bytes_cmp_trans [] (b ∷ bs) [] h i = cc
bytes_cmp_trans [] (b ∷ bs) (c ∷ cs) h i = refl
bytes_cmp_trans (a ∷ as') [] c h i = cc
bytes_cmp_trans (a ∷ as') (b ∷ bs) [] h i = cc
bytes_cmp_trans (a ∷ as') (b ∷ bs) (c ∷ cs) h i = ground (arith, h, i, bytes_cmp_trans as' bs cs)

instance abbrev pub bytes_ord : Ord Bytes
bytes_ord = record { cmp = bytes_cmp; cmp_iff = bytes_cmp_iff }

module _ {ℓ} {A : Type ℓ} ⦃o : Ord A⦄ where
  pub ==_iff : (a b : A) → ((a == b) ≡ true) ↔ (a ≡ b)
  ==_iff a b = ground (arith, o.cmp_iff a b)

  pub ==_refl : (a : A) → (a == a) ≡ true
  ==_refl a = ground (arith, o.cmp_iff a a)

  -- `==` on optional values
  abbrev pub option_eq : Option A → Option A → Bool
  option_eq none none = true
  option_eq (some a) (some b) = a == b
  option_eq _ _ = false
