-- ===== src/Base/Utf8.antt =====
-- `std::str::from_utf8`: whether bytes are UTF-8.
use Prim.Native.Nat.{ℕ}
use mathlib.Core.Path.{◌≡◌, refl}
use mathlib.Core.Bool.{Bool, true, false, ◌&&◌, ◌||◌}
use mathlib.Core.List.{[], ◌∷◌}
use native.Mathlib.Omega.{arith}
use rustsync.Base.Tests.{ltb, leb}
use rustsync.Base.Lists.{Bytes, all}
use rustsync.Base.Order.{◌==◌, nat_ord}

abbrev is_tail : ℕ → Bool
is_tail b = leb 0x80 b && leb b 0xbf

-- Characters of two, three and four bytes
abbrev is_pair : ℕ → ℕ → Bool
is_pair a b = leb 0xc2 a && leb a 0xdf && is_tail b

abbrev is_triple : ℕ → ℕ → ℕ → Bool
is_triple a b c =
    (a == 0xe0 && leb 0xa0 b && leb b 0xbf
      || (leb 0xe1 a && leb a 0xec || a == 0xee || a == 0xef) && is_tail b
      || a == 0xed && leb 0x80 b && leb b 0x9f)
    && is_tail c

abbrev is_quadruple : ℕ → ℕ → ℕ → ℕ → Bool
is_quadruple a b c d =
    (a == 0xf0 && leb 0x90 b && leb b 0xbf
      || leb 0xf1 a && leb a 0xf3 && is_tail b
      || a == 0xf4 && leb 0x80 b && leb b 0x8f)
    && is_tail c
    && is_tail d

abbrev is_ascii : ℕ → Bool
is_ascii a = ltb a 0x80

unfoldable pub is_utf8 : Bytes → Bool
is_utf8 [] = true
is_utf8 (a ∷ []) = is_ascii a
is_utf8 (a ∷ b ∷ []) = elim (is_ascii a) [ true ↦ is_utf8 (b ∷ []) | false ↦ is_pair a b ]
is_utf8 (a ∷ b ∷ c ∷ []) = elim (is_ascii a) [
  | true ↦ is_utf8 (b ∷ c ∷ [])
  | false ↦ elim (is_pair a b) [ true ↦ is_utf8 (c ∷ []) | false ↦ is_triple a b c ]
]
is_utf8 (a ∷ b ∷ c ∷ d ∷ rest) = elim (is_ascii a) [
  | true ↦ is_utf8 (b ∷ c ∷ d ∷ rest)
  | false ↦ elim (is_pair a b) [
    | true ↦ is_utf8 (c ∷ d ∷ rest)
    | false ↦ elim (is_triple a b c) [
      | true ↦ is_utf8 (d ∷ rest)
      | false ↦ elim (is_quadruple a b c d) [ true ↦ is_utf8 rest | false ↦ false ]
    ]
  ]
]

-- Bytes below 128 are characters by themselves.
pub is_utf8-ascii : (bs : Bytes) → all (λ b. ltb b 0x80) bs ≡ true → is_utf8 bs ≡ true
unfolding is_utf8
is_utf8-ascii [] h = refl
is_utf8-ascii (a ∷ []) h = ground arith
is_utf8-ascii (a ∷ b ∷ []) h = ground arith
is_utf8-ascii (a ∷ b ∷ c ∷ []) h = ground arith
is_utf8-ascii (a ∷ b ∷ c ∷ d ∷ rest) h = ground (arith, is_utf8-ascii (b ∷ c ∷ d ∷ rest))
