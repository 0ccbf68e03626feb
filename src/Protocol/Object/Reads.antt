-- ===== src/Protocol/Object/Reads.antt =====
-- What the reads of a frame return and leave, in terms of the bytes that are still ahead.
use rustsync.Base.{ℕ, suc, zero, ◌+◌, ◌≤◌, ◌<◌, ◌≡◌, refl, sym, ap, ◌∙◌, [], ◌∷◌, ◌++◌, Bytes}
use rustsync.Base.{length, take, drop, arith, take-append, drop-append, length-append}
use rustsync.Base.{take-drop, length-take, u64_mod}
use rustsync.Base.Exec.{ok}
use rustsync.Protocol.Object.{Cursor, take_or_invalid}

-- A cursor inside bytes that a machine can address
pub record IsInside (c : Cursor) : Type 0 where
  pub inside : c.position ≤ length c.bytes
  pub addressable : length c.bytes < u64_mod

-- The bytes that have not been read
abbrev pub ahead : Cursor → Bytes
ahead c = drop c.position c.bytes

drop_nil : (n : ℕ) → drop {A = ℕ} n [] ≡ []
drop_nil zero = refl
drop_nil (suc n) = refl

drop-drop : (n k : ℕ) (xs : Bytes) → drop k (drop n xs) ≡ drop (n + k) xs
drop-drop zero k xs = let e : k ≡ zero + k = omega arith in ap (λ m. drop m xs) e
drop-drop (suc n) k [] = drop_nil k ∙ sym (drop_nil (suc n + k))
drop-drop (suc n) k (x ∷ xs) =
    let e : suc (n + k) ≡ suc n + k = omega arith in drop-drop n k xs ∙ ap (λ m. drop m (x ∷ xs)) e

length-drop : (n : ℕ) (xs : Bytes) → n ≤ length xs → length (drop n xs) + n ≡ length xs
length-drop zero xs h = omega arith
length-drop (suc n) [] h = elim h [ ]
length-drop (suc n) (x ∷ xs) h = omega (arith, length-drop n xs)

-- A read of bytes that are ahead returns them, and leaves the cursor behind them.
pub take_or_invalid-ahead :
    (c : Cursor) (xs rest : Bytes)
    → IsInside c
    → ahead c ≡ xs ++ rest
    → (d : Cursor) × (take_or_invalid (length xs) c ≡ (ok xs, d)) × IsInside d × (ahead d ≡ rest)
unfolding take_or_invalid
take_or_invalid-ahead c xs rest i e =
    let total : c.position + length xs ≤ length c.bytes = omega (
      arith,
      i.inside,
      length-drop c.position c.bytes i.inside,
      ap (length {A = ℕ}) e,
      length-append xs rest,
    ) in
    let taken : take (length xs) (drop c.position c.bytes) ≡ xs =
      ap (take (length xs)) e ∙ take-append xs rest in
    let end = record c { position = c.position + length xs } in
    (
      end,
      ground (arith, taken, total, i.addressable),
      record { inside = total; addressable = i.addressable },
      sym (drop-drop c.position (length xs) c.bytes)
          ∙ ap (drop (length xs)) e
          ∙ drop-append xs rest,
    )

taken_facts :
    (c d : Cursor) (n : ℕ) (xs : Bytes)
    → take_or_invalid n c ≡ (ok xs, d)
    → (c.position + n ≤ length c.bytes)
      × (xs ≡ take n (drop c.position c.bytes))
      × (d ≡ record c { position = c.position + n })
unfolding take_or_invalid
taken_facts c d n xs h = ground arith

-- A read that returns has returned what was ahead of it.
pub take_or_invalid-ok :
    (c d : Cursor) (n : ℕ) (xs : Bytes)
    → take_or_invalid n c ≡ (ok xs, d)
    → (length xs ≡ n) × (ahead c ≡ xs ++ ahead d)
take_or_invalid-ok c d n xs h =
    let (fits, is_taken, moved) = taken_facts c d n xs h in
    (
      rw is_taken (
          length-take n (drop c.position c.bytes)
            (omega (arith, length-drop c.position c.bytes (omega arith)))),
      rw (is_taken, moved)
          (sym (take-drop n (drop c.position c.bytes))
            ∙ ap (λ r. take n (drop c.position c.bytes) ++ r) (drop-drop c.position n c.bytes)),
    )
