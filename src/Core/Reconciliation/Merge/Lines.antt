-- ===== src/Core/Reconciliation/Merge/Lines.antt =====
-- What a merge of three texts is, line by line.
use rustsync.Base.{ℕ, true, bytes_ord, nat_ord}
use rustsync.Base.{
  List, [], ◌∷◌, ◌++◌, Bytes, length, Option, none, some, ◌≡◌, refl, sym, ◌∙◌, ◌↔◌, ◌⊎◌,
}
use rustsync.Base.{inl, inr, arith, bytes_cmp_iff}
use rustsync.Base.Utf8.{is_utf8}
use rustsync.Core.Reconciliation.Merge.{
  split_inclusive, prepend, merge_line, merge_lines, push_line,
}
use rustsync.Core.Reconciliation.Merge.{merge_text_three_way}

abbrev pub concat : List Bytes → Bytes
concat [] = []
concat (line ∷ lines) = line ++ concat lines

concat-prepend : (b : ℕ) (lines : List Bytes) → concat (prepend b lines) ≡ b ∷ concat lines
concat-prepend b [] = refl
concat-prepend b (line ∷ lines) = refl

pub concat-split_inclusive : (text : Bytes) → concat (split_inclusive text) ≡ text
unfolding split_inclusive
concat-split_inclusive [] = refl
concat-split_inclusive (b ∷ rest) =
    ground (arith, concat-split_inclusive rest, concat-prepend b (split_inclusive rest))

-- A line of the result: the line of a side whose other side has left the base's line, or has the
-- same line.
abbrev pub IsMerged : (base local remote merged : Bytes) → Type 0
IsMerged base local remote merged =
    ((remote ≡ base) × (merged ≡ local))
    ⊎ ((local ≡ base) × (merged ≡ remote))
    ⊎ ((local ≡ remote) × (merged ≡ local))

-- Three versions with as many lines each, and the lines of their merge
pub data Merges : (base local remote merged : List Bytes) → Type 0 where
  done : Merges [] [] [] []
  line :
      {b l r m : Bytes} {bs ls rs ms : List Bytes}
      → IsMerged b l r m
      → Merges bs ls rs ms
      → Merges (b ∷ bs) (l ∷ ls) (r ∷ rs) (m ∷ ms)

merge_line_iff : (b l r m : Bytes) → (merge_line b l r ≡ some m) ↔ IsMerged b l r m
unfolding merge_line
merge_line_iff b l r m = (
  λ h. ground (arith, h, bytes_cmp_iff l b, bytes_cmp_iff r b, bytes_cmp_iff l r),
  λ h. ground (arith, h, bytes_cmp_iff l b, bytes_cmp_iff r b, bytes_cmp_iff l r),
)

push_line-eq-some :
    (a b : Option Bytes) (text : Bytes)
    → push_line a b ≡ some text
    → (m : Bytes) × (rest : Bytes) × (a ≡ some m) × (b ≡ some rest) × (text ≡ m ++ rest)
push_line-eq-some (some m) (some rest) text h = (m, rest, refl, refl, ground arith)
push_line-eq-some (some m) none text h = cc
push_line-eq-some none b text h = cc

merge_lines-Merges :
    (bs ls rs : List Bytes) (text : Bytes)
    → length bs ≡ length ls
    → length bs ≡ length rs
    → merge_lines bs ls rs ≡ some text
    → (ms : List Bytes) × Merges bs ls rs ms × (text ≡ concat ms)
unfolding merge_lines
merge_lines-Merges [] [] [] text l r h = ([], done, ground arith)
merge_lines-Merges [] (x ∷ ls) rs text l r h = absurd (omega arith)
merge_lines-Merges [] [] (x ∷ rs) text l r h = absurd (omega arith)
merge_lines-Merges (b ∷ bs) [] rs text l r h = absurd (omega arith)
merge_lines-Merges (b ∷ bs) (x ∷ ls) [] text l r h = absurd (omega arith)
merge_lines-Merges (b ∷ bs) (x ∷ ls) (y ∷ rs) text l r h =
    let (m, rest, one, more, at) = push_line-eq-some (merge_line b x y) _ text h in
    let (ms, q, same) = merge_lines-Merges bs ls rs rest (omega arith) (omega arith) more in
    (m ∷ ms, line ((merge_line_iff b x y m).0 one) q, rw (at, same) refl)

Merges-merge_lines :
    (bs ls rs ms : List Bytes) → Merges bs ls rs ms → merge_lines bs ls rs ≡ some (concat ms)
unfolding merge_lines
Merges-merge_lines _ _ _ _ done = refl
Merges-merge_lines _ _ _ _ (line {b} {l} {r} {m} {bs} {ls} {rs} {ms} one more) =
    rw ((merge_line_iff b l r m).1 one, Merges-merge_lines bs ls rs ms more) refl

Merges-lengths :
    (bs ls rs ms : List Bytes)
    → Merges bs ls rs ms
    → (length bs ≡ length ls) × (length bs ≡ length rs)
Merges-lengths _ _ _ _ done = (refl, refl)
Merges-lengths _ _ _ _ (line {bs} {ls} {rs} {ms} one more) =
    let (l, r) = Merges-lengths bs ls rs ms more in (omega arith, omega arith)

-- The result of a merge: the three texts are UTF-8, and its lines merge theirs.
abbrev pub IsMergedText : (base local remote merged : Bytes) → Type 0
IsMergedText base local remote merged =
    (is_utf8 base ≡ true)
    × (is_utf8 local ≡ true)
    × (is_utf8 remote ≡ true)
    × (ms : List Bytes) × Merges (split_inclusive base) (split_inclusive local)
        (split_inclusive remote) ms
    × (merged ≡ concat ms)

-- Merging three texts gives a text exactly when they are UTF-8 and have as many lines each, and
-- each line of the text is the line of a side whose other side has left the base's line or has the
-- same line.
pub merge_text_three_way_iff :
    (base local remote merged : Bytes)
    → (merge_text_three_way base local remote ≡ some merged) ↔ IsMergedText base local remote merged
unfolding merge_text_three_way
merge_text_three_way_iff base local remote merged =
    let bs = split_inclusive base in
    let ls = split_inclusive local in
    let rs = split_inclusive remote in
    (
      λ h.
          let (u, v, w, x, y, run) : (is_utf8 base ≡ true)
              × (is_utf8 local ≡ true)
              × (is_utf8 remote ≡ true)
              × (length bs ≡ length ls)
              × (length bs ≡ length rs)
              × (merge_lines bs ls rs ≡ some merged) =
            ground (arith, h) in
          let (ms, q, at) = merge_lines-Merges bs ls rs merged x y run in (u, v, w, ms, q, at),
      λ q.
          let (u, v, w, ms, more, at) = q in
          let (x, y) = Merges-lengths bs ls rs ms more in
          ground (arith, u, v, w, x, y, at, Merges-merge_lines bs ls rs ms more),
    )

IsMerged-comm : (b l r m : Bytes) → IsMerged b l r m → IsMerged b r l m
IsMerged-comm b l r m (inl q) = inr (inl q)
IsMerged-comm b l r m (inr (inl q)) = inl q
IsMerged-comm b l r m (inr (inr (same, at))) = inr (inr (sym same, at ∙ same))

Merges-comm : (bs ls rs ms : List Bytes) → Merges bs ls rs ms → Merges bs rs ls ms
Merges-comm _ _ _ _ done = done
Merges-comm _ _ _ _ (line {b} {l} {r} {m} {bs} {ls} {rs} {ms} one more) =
    line (IsMerged-comm b l r m one) (Merges-comm bs ls rs ms more)

merge_text_three_way_swapped :
    (base local remote merged : Bytes)
    → merge_text_three_way base local remote ≡ some merged
    → merge_text_three_way base remote local ≡ some merged
merge_text_three_way_swapped base local remote merged h =
    let (u, v, w, ms, more, at) = (merge_text_three_way_iff base local remote merged).0 h in
    (merge_text_three_way_iff base remote local merged).1
      (u, w, v, ms, Merges-comm _ _ _ ms more, at)

same_somes :
    (a b : Option Bytes)
    → ((m : Bytes) → a ≡ some m → b ≡ some m)
    → ((m : Bytes) → b ≡ some m → a ≡ some m)
    → a ≡ b
same_somes none none f g = refl
same_somes none (some m) f g = g m refl
same_somes (some m) b f g = sym (f m refl)

-- Which side is called local does not matter to a merge, nor to whether there is one.
pub merge_text_three_way_comm :
    (base local remote : Bytes)
    → merge_text_three_way base local remote ≡ merge_text_three_way base remote local
merge_text_three_way_comm base local remote =
    same_somes _ _ (merge_text_three_way_swapped base local remote)
      (merge_text_three_way_swapped base remote local)

Merges-unchanged : (bs rs : List Bytes) → length bs ≡ length rs → Merges bs bs rs rs
Merges-unchanged [] [] h = done
Merges-unchanged [] (r ∷ rs) h = absurd (omega arith)
Merges-unchanged (b ∷ bs) [] h = absurd (omega arith)
Merges-unchanged (b ∷ bs) (r ∷ rs) h =
    line (inr (inl (refl, refl))) (Merges-unchanged bs rs (omega arith))

-- When either side is the base, the merge is the other side, if both are UTF-8 and have as many
-- lines.
pub merge_text_three_way-unchanged :
    (base side : Bytes)
    → is_utf8 base ≡ true
    → is_utf8 side ≡ true
    → length (split_inclusive base) ≡ length (split_inclusive side)
    → (merge_text_three_way base base side ≡ some side)
      × (merge_text_three_way base side base ≡ some side)
merge_text_three_way-unchanged base side u v h =
    let remote : merge_text_three_way base base side ≡ some side =
      (merge_text_three_way_iff base base side side).1 (
        u,
        u,
        v,
        split_inclusive side,
        Merges-unchanged (split_inclusive base) (split_inclusive side) h,
        sym (concat-split_inclusive side),
      ) in
    (remote, merge_text_three_way_comm base side base ∙ remote)
