-- ===== src/Base/Map.antt =====
-- `std::collections::BTreeMap` as an association list in key order.
use Prim.Native.Nat.{Ordering}
use mathlib.Core.Path.{◌≡◌, refl, sym, ◌∙◌, subst}
use mathlib.Core.Logic.{inl, inr}
use mathlib.Core.Bool.{Bool, true, false}
use mathlib.Core.Option
use mathlib.Core.Option.{Option, none, some, some-injective, some-ne-none}
use mathlib.Core.List.{List, [], ◌∷◌}
use native.Mathlib.Omega.{arith}
use rustsync.Base.Tests.{if◌then◌else◌, Bool-cases}
use rustsync.Base.Order.{Ord, ◌==◌, ==_iff}

abbrev pub BTreeMap {ℓ κ} : Type ℓ → Type κ → Type (ℓ ⊔ κ)
BTreeMap K V = List (K × V)

module _ {ℓ κ} {K : Type ℓ} {V : Type κ} where
  abbrev pub keys : BTreeMap K V → List K
  keys [] = []
  keys ((k, v) ∷ m) = k ∷ keys m

  abbrev pub values : BTreeMap K V → List V
  values [] = []
  values ((k, v) ∷ m) = v ∷ values m

  -- A loop over `iter_mut` that changes each value in place.
  abbrev pub map_values : (V → V) → BTreeMap K V → BTreeMap K V
  map_values f [] = []
  map_values f ((k, v) ∷ m) = (k, f v) ∷ map_values f m

  -- Every entry has the property.
  abbrev pub Entries {μ} : (K → V → Type μ) → BTreeMap K V → Type μ
  Entries P [] = Unit
  Entries P ((k, v) ∷ m) = P k v × Entries P m

  pub Entries-mono {μ ν} :
      (P : K → V → Type μ) (Q : K → V → Type ν) (m : BTreeMap K V)
      → ((k : K) (v : V) → P k v → Q k v)
      → Entries P m
      → Entries Q m
  Entries-mono P Q [] h a = tt
  Entries-mono P Q ((k, v) ∷ m) h (p, a) = (h k v p, Entries-mono P Q m h a)

  pub Entries-map_values {μ ν} :
      (P : K → V → Type μ) (Q : K → V → Type ν) (f : V → V) (m : BTreeMap K V)
      → ((k : K) (v : V) → P k v → Q k (f v))
      → Entries P m
      → Entries Q (map_values f m)
  Entries-map_values P Q f [] h a = tt
  Entries-map_values P Q f ((k, v) ∷ m) h (p, a) = (h k v p, Entries-map_values P Q f m h a)

module _ {ℓ κ} {K : Type ℓ} {V : Type κ} ⦃o : Ord K⦄ where
  unfoldable pub get : K → BTreeMap K V → Option V
  get k [] = none
  get k ((j, v) ∷ m) = if k == j then some v else get k m

  abbrev pub contains_key : K → BTreeMap K V → Bool
  contains_key k m = elim (get k m) [ none ↦ false | some v ↦ true ]

  unfoldable pub insert : K → V → BTreeMap K V → BTreeMap K V
  insert k v [] = (k, v) ∷ []
  insert k v ((j, w) ∷ m) =
      let rest = insert k v m in
      elim (o.cmp k j) [
        | Ordering.lt ↦ (k, v) ∷ (j, w) ∷ m
        | Ordering.eq ↦ (k, v) ∷ m
        | Ordering.gt ↦ (j, w) ∷ rest
      ]

  -- `BTreeMap::remove`. Every entry of the key goes; a map has at most one.
  unfoldable pub remove : K → BTreeMap K V → BTreeMap K V
  remove k [] = []
  remove k ((j, w) ∷ m) = let rest = remove k m in if k == j then rest else (j, w) ∷ rest

  -- A change through `get_mut`. Every entry of the key changes; a map has at most one.
  unfoldable pub adjust : K → (V → V) → BTreeMap K V → BTreeMap K V
  adjust k f [] = []
  adjust k f ((j, w) ∷ m) = (j, (if k == j then f w else w)) ∷ adjust k f m

  abbrev pub NodupKeys : BTreeMap K V → Type κ
  NodupKeys [] = Unit
  NodupKeys ((k, v) ∷ m) = (get k m ≡ none) × NodupKeys m

  pub get-insert :
      (j k : K) (v : V) (m : BTreeMap K V)
      → get j (insert k v m) ≡ (if j == k then some v else get j m)
  unfolding get insert
  get-insert j k v [] = refl
  get-insert j k v ((i, w) ∷ m) =
      ground (arith, get-insert j k v m, o.cmp_iff k i, o.cmp_iff j k, o.cmp_iff j i)

  pub get-remove :
      (j k : K) (m : BTreeMap K V) → get j (remove k m) ≡ (if j == k then none else get j m)
  unfolding get remove
  get-remove j k [] = ground arith
  get-remove j k ((i, w) ∷ m) =
      ground (arith, get-remove j k m, o.cmp_iff k i, o.cmp_iff j k, o.cmp_iff j i)

  pub get-adjust :
      (j k : K) (f : V → V) (m : BTreeMap K V)
      → get j (adjust k f m) ≡ (if j == k then Option.map f (get j m) else get j m)
  unfolding get adjust
  get-adjust j k f [] = ground arith
  get-adjust j k f ((i, w) ∷ m) =
      ground (arith, get-adjust j k f m, o.cmp_iff k i, o.cmp_iff j k, o.cmp_iff j i)

  pub get-insert_off :
      (j k : K) (v : V) (m : BTreeMap K V) → (k == j) ≡ false → get j (insert k v m) ≡ get j m
  get-insert_off j k v m h = get-insert j k v m ∙ ground (arith, o.cmp_iff k j, o.cmp_iff j k)

  pub get-adjust_off :
      (j k : K) (f : V → V) (m : BTreeMap K V) → (k == j) ≡ false → get j (adjust k f m) ≡ get j m
  get-adjust_off j k f m h = get-adjust j k f m ∙ ground (arith, o.cmp_iff k j, o.cmp_iff j k)

  -- A change of a value leaves the keys as they are.
  pub contains_key-adjust :
      (j k : K) (f : V → V) (m : BTreeMap K V) → contains_key j (adjust k f m) ≡ contains_key j m
  contains_key-adjust j k f m = ground (arith, get-adjust j k f m)

  pub get-map_values :
      (j : K) (f : V → V) (m : BTreeMap K V) → get j (map_values f m) ≡ Option.map f (get j m)
  unfolding get
  get-map_values j f [] = refl
  get-map_values j f ((i, w) ∷ m) = ground (arith, get-map_values j f m)

  pub insert-NodupKeys :
      (k : K) (v : V) (m : BTreeMap K V) → get k m ≡ none → NodupKeys m → NodupKeys (insert k v m)
  unfolding insert get
  insert-NodupKeys k v [] e u = (refl, tt)
  insert-NodupKeys k v ((j, w) ∷ m) e (fresh, u) =
      ground (arith, get-insert j k v m, insert-NodupKeys k v m, o.cmp_iff k j, o.cmp_iff j k)

  pub adjust-NodupKeys :
      (k : K) (f : V → V) (m : BTreeMap K V) → NodupKeys m → NodupKeys (adjust k f m)
  unfolding adjust
  adjust-NodupKeys k f [] u = tt
  adjust-NodupKeys k f ((j, w) ∷ m) (fresh, u) =
      (get-adjust j k f m ∙ ground (arith, fresh), adjust-NodupKeys k f m u)

  module _ {μ} (P : K → V → Type μ) where
    pub Entries-insert :
        (k : K) (v : V) (m : BTreeMap K V) → P k v → Entries P m → Entries P (insert k v m)
    unfolding insert
    Entries-insert k v [] p a = (p, tt)
    Entries-insert k v ((j, w) ∷ m) p (q, a) =
        let rest = Entries-insert k v m p a in
        elim (o.cmp k j)
          as (λ c. Entries P (elim c [
            | Ordering.lt ↦ (k, v) ∷ (j, w) ∷ m
            | Ordering.eq ↦ (k, v) ∷ m
            | Ordering.gt ↦ (j, w) ∷ insert k v m
          ])) [ Ordering.lt ↦ (p, (q, a)) | Ordering.eq ↦ (p, a) | Ordering.gt ↦ (q, rest) ]

    pub Entries-adjust {ν} :
        (Q : K → V → Type ν) (k : K) (f : V → V) (m : BTreeMap K V)
        → ((v : V) → P k v → Q k (f v))
        → ((j : K) (v : V) → (k == j) ≡ false → P j v → Q j v)
        → Entries P m
        → Entries Q (adjust k f m)
    unfolding adjust
    Entries-adjust Q k f [] on off a = tt
    Entries-adjust Q k f ((j, w) ∷ m) on off (p, a) =
        let rest = Entries-adjust Q k f m on off a in
        elim (Bool-cases (k == j)) [
          | inl e ↦
              let same : k ≡ j = (==_iff k j).0 e in
              (rw e (subst (λ i. Q i (f w)) same (on w (subst (λ i. P i w) (sym same) p))), rest)
          | inr e ↦ (rw e (off j w e p), rest)
        ]

    pub Entries-get : (k : K) (m : BTreeMap K V) {v : V} → Entries P m → get k m ≡ some v → P k v
    unfolding get
    Entries-get k [] a e = cc
    Entries-get k ((j, w) ∷ m) {v = x} (p, a) e = elim (Bool-cases (k == j)) [
      | inl t ↦
          subst (λ i. P i x) (sym ((==_iff k j).0 t))
            (subst (λ (x : V). P j x) (some-injective w x (rw t at e)) p)
      | inr t ↦ Entries-get k m a (rw t at e)
    ]

    -- A property that may use that the key is not `k`, which is absent.
    pub Entries-mono_off {ν} :
        (Q : K → V → Type ν) (k : K) (m : BTreeMap K V)
        → get k m ≡ none
        → ((j : K) (v : V) → (k == j) ≡ false → P j v → Q j v)
        → Entries P m
        → Entries Q m
    unfolding get
    Entries-mono_off Q k [] e h a = tt
    Entries-mono_off Q k ((j, w) ∷ m) e h (p, a) = elim (Bool-cases (k == j)) [
      | inl t ↦ absurd (some-ne-none w (rw t at e))
      | inr t ↦ (h j w t p, Entries-mono_off Q k m (rw t at e) h a)
    ]
