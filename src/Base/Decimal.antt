-- ===== src/Base/Decimal.antt =====
-- `u64` as decimal text: `Display` and `FromStr`.
use Prim.Native.Nat.{ℕ, zero, suc, ◌+◌, ◌-◌, ◌*◌, ◌/◌, ◌%◌, ◌<◌, ◌≤◌}
use mathlib.Core.Path.{◌≡◌, refl, sym, ap, ◌∙◌}
use mathlib.Core.Bool.{Bool, false, ◌&&◌}
use mathlib.Core.Option.{Option, none, some, some-injective}
use mathlib.Core.Logic.{inl, inr}
use mathlib.Core.List.{[], ◌∷◌, ◌++◌, append_assoc, append-nil}
use native.Mathlib.Omega.{arith}
use rustsync.Base.Tests.{ltb, leb, if◌then◌else◌, u64_mod, Bool-cases}
use rustsync.Base.Lists.{Bytes, any, any-++}
use rustsync.Base.Order.{◌==◌, nat_ord}

-- The digits of a number, on fuel
unfoldable pub digits : ℕ → ℕ → Bytes
digits zero n = []
digits (suc fuel) n =
    let rest = digits fuel (n / 10) ++ (48 + n % 10) ∷ [] in
    if ltb n 10 then (48 + n) ∷ [] else rest

-- `value.to_string()`
unfoldable pub to_decimal : ℕ → Bytes
unfolding digits
to_decimal n = digits (suc n) n

-- One more digit behind a number, with the checks of the arithmetic
abbrev push_digit : ℕ → ℕ → Option ℕ
push_digit value b =
    if leb b'0' b && leb b b'9' && ltb (value * 10 + (b - 48)) u64_mod
    then some (value * 10 + (b - 48))
    else none

unfoldable pub parse_digits : ℕ → Bytes → Option ℕ
parse_digits value [] = some value
parse_digits value (b ∷ rest) = elim (push_digit value b) [
  | none ↦ none
  | some more ↦ parse_digits more rest
]

-- `text.parse::<u64>()`
unfoldable pub parse_u64 : Bytes → Option ℕ
unfolding parse_digits
parse_u64 [] = none
parse_u64 (b ∷ []) = parse_digits 0 (b ∷ [])
parse_u64 (b ∷ c ∷ rest) =
    if b == b'+' then parse_digits 0 (c ∷ rest) else parse_digits 0 (b ∷ c ∷ rest)

parse_digits-digits :
    (fuel n : ℕ) (rest : Bytes)
    → n < fuel
    → n < u64_mod
    → parse_digits 0 (digits fuel n ++ rest) ≡ parse_digits n rest
unfolding digits parse_digits
parse_digits-digits zero n rest h w = absurd (omega arith)
parse_digits-digits (suc fuel) n rest h w = elim (Bool-cases (ltb n 10)) [
  | inl small ↦ ground (arith, small)
  | inr big ↦
      rw (big, append_assoc (digits fuel (n / 10)) ((48 + n % 10) ∷ []) rest)
        (parse_digits-digits fuel (n / 10) ((48 + n % 10) ∷ rest) (ground (arith, big))
            (omega arith)
          ∙ ground (arith, big, w))
]

digits-cons :
    (fuel n : ℕ) → n < fuel → (b : ℕ) × (rest : Bytes) × (digits fuel n ≡ b ∷ rest) × (48 ≤ b)
unfolding digits
digits-cons zero n h = absurd (omega arith)
digits-cons (suc fuel) n h = elim (Bool-cases (ltb n 10)) [
  | inl small ↦ (48 + n, [], rw small refl, omega arith)
  | inr big ↦
      let (b, rest, at, digit) = digits-cons fuel (n / 10) (ground (arith, big)) in
      (b, rest ++ (48 + n % 10) ∷ [], rw (big, at) refl, digit)
]

parse_u64_unsigned :
    (b : ℕ) (rest : Bytes) → 48 ≤ b → parse_u64 (b ∷ rest) ≡ parse_digits 0 (b ∷ rest)
unfolding parse_u64
parse_u64_unsigned b [] h = refl
parse_u64_unsigned b (c ∷ rest) h = ground arith

-- What is printed is read back.
pub parse_u64-to_decimal : (n : ℕ) → n < u64_mod → parse_u64 (to_decimal n) ≡ some n
unfolding to_decimal parse_digits
parse_u64-to_decimal n h =
    let (b, rest, at, digit) = digits-cons (suc n) n (omega arith) in
    ap parse_u64 at
    ∙ parse_u64_unsigned b rest digit
    ∙ ap (parse_digits 0) (sym at ∙ sym (append-nil (digits (suc n) n)))
    ∙ parse_digits-digits (suc n) n [] (omega arith) h

pub to_decimal_inj : (n m : ℕ) → n < u64_mod → m < u64_mod → to_decimal n ≡ to_decimal m → n ≡ m
to_decimal_inj n m h k e =
    some-injective _ _ (sym (parse_u64-to_decimal n h) ∙ ap parse_u64 e ∙ parse_u64-to_decimal m k)

digits-any :
    (p : ℕ → Bool) (fuel n : ℕ)
    → ((b : ℕ) → 48 ≤ b → b < 58 → p b ≡ false)
    → any p (digits fuel n) ≡ false
unfolding digits
digits-any p zero n h = refl
digits-any p (suc fuel) n h = elim (Bool-cases (ltb n 10)) [
  | inl small ↦ rw small (ground (arith, small, h (48 + n)))
  | inr big ↦
      rw (big, any-++ p (digits fuel (n / 10)) ((48 + n % 10) ∷ []))
        (ground (arith, digits-any p fuel (n / 10) h, h (48 + n % 10)))
]

-- A test that fails for the digits fails in a printed number.
pub to_decimal-any :
    (p : ℕ → Bool) (n : ℕ)
    → ((b : ℕ) → 48 ≤ b → b < 58 → p b ≡ false)
    → any p (to_decimal n) ≡ false
unfolding to_decimal
to_decimal-any p n h = digits-any p (suc n) n h
